-- ===== src/Config/Loading.antt =====
-- What holds of the settings that `loadConfig` returns.
use freebuff2api.Base.{
  ◌≡◌, ◌≢◌, ◌⊎◌, inl, inr, refl, sym, subst, true, false, Option, List, [], ◌∷◌, arith,
  Option-cases, ℤ, is_positive, Text, text_eq_iff, trim_space,
}
use freebuff2api.Config.{
  RawConfig, Settings, loads, check_settings, settings_of, load_parsed, load_config, overridden,
}
use freebuff2api.Config.Lists.{AllDifferent, dedupe_strings-AllDifferent}

-- Settings that the program can run with.
pub record IsSound (s : Settings) : Type 0 where
  pub listens : s.listen_addr ≢ []
  pub reaches : s.upstream_base_url ≢ []
  pub rotates : is_positive s.rotation_interval ≡ true
  pub times_out : is_positive s.request_timeout ≡ true
  -- there are tokens, or a store for them
  pub supplied : (s.auth_tokens ≢ []) ⊎ (s.data_db_path ≢ [])
  -- the store comes with a key, and so does the web console
  pub sealed : (s.data_db_path ≡ []) ⊎ (s.data_encryption_key ≢ [])
  pub guarded : (s.web_password ≡ []) ⊎ (s.data_encryption_key ≢ [])

-- Settings that come of a file and the environment.
pub record IsDerived (s : Settings) : Type 0 where
  -- a key comes with a store
  pub stored : (s.data_encryption_key ≡ []) ⊎ (s.data_db_path ≢ [])
  pub tokens : AllDifferent s.auth_tokens
  pub keys : AllDifferent s.api_keys

has_tokens : (l : List Text) → ((elim l [ [] ↦ true | _ ∷ _ ↦ false ]) ≡ true) ⊎ (l ≢ [])
has_tokens [] = inl refl
has_tokens (a ∷ l) = inr (λ e. cc)

check_settings-IsSound : (s t : Settings) → check_settings s ≡ loads t → (t ≡ s) × IsSound s
unfolding check_settings
check_settings-IsSound s t h = (
  ground arith,
  record {
    listens = ground (arith, text_eq_iff s.listen_addr []);
    reaches = ground (arith, text_eq_iff s.upstream_base_url []);
    rotates = ground arith;
    times_out = ground arith;
    supplied = ground (arith, has_tokens s.auth_tokens, text_eq_iff s.data_db_path []);
    sealed = ground (arith, text_eq_iff s.data_db_path [], text_eq_iff s.data_encryption_key []);
    guarded = ground (arith, text_eq_iff s.web_password [], text_eq_iff s.data_encryption_key []);
  },
)

settings_of-IsDerived :
    (c : RawConfig) (interval timeout : ℤ) → IsDerived (settings_of c interval timeout)
unfolding settings_of
settings_of-IsDerived c interval timeout = record {
  stored = ground (
    arith,
    text_eq_iff (trim_space c.data_encryption_key) [],
    text_eq_iff (trim_space c.data_db_path) [],
  );
  tokens = (dedupe_strings-AllDifferent c.auth_tokens).0;
  keys = (dedupe_strings-AllDifferent c.api_keys).0;
}

-- Settings that `loadConfig` returns can be run with: there are addresses to listen on and to reach,
-- positive intervals, tokens or a store for them, a key for the store and for the web console; a key
-- comes with a store; and no token and no API key stands twice.
pub load_config-IsSound :
    (getenv : Text → Text) (parse_duration : Text → Option ℤ) (file : RawConfig) (s : Settings)
    → load_config getenv parse_duration file ≡ loads s
    → IsSound s × IsDerived s
unfolding load_config load_parsed
load_config-IsSound getenv parse_duration file s h =
    let c = overridden getenv parse_duration file in
    elim (Option-cases (parse_duration (trim_space c.rotation_interval))) [
      | inl e ↦ absurd (ground arith)
      | inr (interval, e) ↦ elim (Option-cases (parse_duration (trim_space c.request_timeout))) [
        | inl f ↦ absurd (ground arith)
        | inr (timeout, f) ↦
            let r = check_settings-IsSound (settings_of c interval timeout) s (ground arith) in
            subst (λ t. IsSound t × IsDerived t) (sym r.0)
              (r.1, settings_of-IsDerived c interval timeout)
      ]
    ]
