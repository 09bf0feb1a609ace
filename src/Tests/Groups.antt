-- ===== src/Tests/Groups.antt =====
-- Examples for the proxies and their groups.
use clash_flt.Prelude.{zero, suc, ◌≡◌, refl, true, false, none, some, List, [], ◌∷◌, arith}
use clash_flt.Prelude.Text.{codes, text_eq}
use clash_flt.Queue.{last}
use clash_flt.Adapter.{Heap, Ref, Probe, new_proxy}
use clash_flt.Adapter.History.{
  Event, dialed, tested, apply_all, records, last_ten, history-apply_all,
}
use clash_flt.Single.{do_single, reset}
use clash_flt.Group.{Provider, get_providers_proxies}
use clash_flt.Group.Selector.{Selector, selected_proxy, set, find_name}
use clash_flt.Group.Selecting.{selected_proxy-set}
use clash_flt.Group.Fallback
use clash_flt.Group.Fallback.{Fallback, find_alive_proxy}
use clash_flt.Group.Liveness.{Chosen, find_alive_proxy-Chosen}
use clash_flt.Group.UrlTest
use clash_flt.Group.UrlTest.{UrlTest}
use clash_flt.Group.LoadBalance.{Hashing}

abbrev probe : Probe
probe = record {
  url = some (record { scheme = codes "http"; hostname = codes "example.com"; port = [] });
  connected = true;
  request_built = true;
  first_answer = some 120;
  second_answer = some 200;
  now = 3;
}

abbrev events : List Event
events = tested probe ∷ dialed false ∷ tested probe ∷ []

history-apply_all_example :
    (apply_all events (new_proxy (codes "A") true)).history ≡ last_ten (records events)
history-apply_all_example = history-apply_all events (codes "A") true

-- The proxy 0 is dead; the proxy 1 answered in 120 ms, and any other in 80 ms.
abbrev heap : Heap
heap zero = record { name = codes "A"; support_udp = true; history = []; alive = false }
heap (suc zero) = record {
  name = codes "B";
  support_udp = true;
  history = record { time = 1; delay = 120; mean_delay = 60 } ∷ [];
  alive = true;
}
heap (suc (suc _)) = record {
  name = codes "C";
  support_udp = true;
  history = record { time = 1; delay = 80; mean_delay = 40 } ∷ [];
  alive = true;
}

abbrev provider : Provider
provider = record { proxies = 0 ∷ 1 ∷ 2 ∷ []; last_touch = 0 }

abbrev selector : Selector
selector = record {
  disable_udp = false;
  single = record { last = 0; wait = 5; result = none };
  selected = codes "A";
  providers = provider ∷ [];
}

abbrev chosen_selector : Selector
chosen_selector = record {
  disable_udp = false;
  single = record { last = 0; wait = 5; result = none };
  selected = codes "B";
  providers = provider ∷ [];
}

selector-set : set heap 90 (codes "B") selector ≡ (true, chosen_selector)
unfolding set find_name get_providers_proxies reset text_eq
selector-set = refl

selected_proxy-set_example :
    (r : Ref) × (s1 : Selector) × (s2 : Selector) × ((heap r).name ≡ codes "B")
    × (selected_proxy heap 100 true chosen_selector ≡ some (r, s1))
    × (selected_proxy heap 101 false s1 ≡ some (r, s2))
selected_proxy-set_example =
    selected_proxy-set heap 90 100 101 true false (codes "B") selector chosen_selector selector-set
      (omega arith)

abbrev fallback : Fallback
fallback = record {
  disable_udp = false;
  single = record { last = 0; wait = 5; result = none };
  providers = provider ∷ [];
}

abbrev fallback_after : Fallback
fallback_after = record {
  disable_udp = false;
  single = record { last = 100; wait = 5; result = some (0 ∷ 1 ∷ 2 ∷ []) };
  providers = provider ∷ [];
}

fallback_proxies : Fallback.proxies 100 false fallback ≡ some (0 ∷ 1 ∷ 2 ∷ [], fallback_after)
unfolding Fallback.proxies do_single get_providers_proxies
fallback_proxies = refl

find_alive_proxy-Chosen_example :
    (r : Ref) × (find_alive_proxy heap 100 false fallback ≡ some (r, fallback_after))
    × Chosen heap (0 ∷ 1 ∷ 2 ∷ []) r
find_alive_proxy-Chosen_example =
    find_alive_proxy-Chosen heap 100 false fallback fallback_after 0 (1 ∷ 2 ∷ []) fallback_proxies

abbrev url_group : UrlTest
url_group = record {
  tolerance = 50;
  disable_udp = false;
  fast_node = some 1;
  single = record { last = 0; wait = 5; result = none };
  fast_single = record { last = 0; wait = 10; result = none };
  providers = provider ∷ [];
}

abbrev url_group_after : UrlTest
url_group_after = record url_group {
  single = record { last = 100; wait = 5; result = some (0 ∷ 1 ∷ 2 ∷ []) };
}

abbrev hashing : Hashing
hashing = record {
  is_ip = λ s. false;
  ip_string = λ ip. [];
  effective_tld_plus_one = λ s. some s;
  sum32 = λ s. 7;
  jump_hash = λ key buckets. 0;
}
