-- ===== src/Config/Checked.antt =====
-- What the parsers of the configuration return: a value, or why there is none.
use clash_flt.Prelude.{Option, none, some}
use clash_flt.Prelude.Text.{Text}
use clash_flt.Rule.Parse.{RuleError}
use clash_flt.Picker.{Result, ok, err}

pub data ConfigError : Type 0 where
  invalid_line : ConfigError
  unknown_proxy : Text → ConfigError
  bad_rule : RuleError → ConfigError
  invalid_ip : Text → ConfigError
  bad_server bad_address unsupported_scheme invalid_policy_domain bad_cidr : ConfigError
  no_nameserver no_default_nameserver default_not_ip : ConfigError
  bad_fake_ip_range no_fake_ip short_ip : ConfigError
  search_domain_dot search_domain_port : ConfigError
  no_external_ui : ConfigError
  bad_proxy duplicate_name missing_name bad_order : ConfigError
  bad_group_format bad_filter missing_proxies unknown_provider compatible_provider : ConfigError
  duplicate_provider missing_health_check bad_provider group_type reserved_provider : ConfigError
  unknown_strategy : ConfigError

abbrev pub Checked : Type 0 → Type 0
Checked A = Result ConfigError A

infixl 5 ◌>>=◌
abbrev pub ◌>>=◌ : {A B : Type 0} → Checked A → (A → Checked B) → Checked B
ok a >>= f = f a
err e >>= f = err e

abbrev pub or_error : {A : Type 0} → Option A → ConfigError → Checked A
or_error none e = err e
or_error (some a) e = ok a
