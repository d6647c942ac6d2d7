-- ===== src/Retention/Passes.antt =====
-- What the retention door lets through.
use imperecta.Base.{
  if_rule, not-false, eq_refl, ℕ, ◌-◌, ◌*◌, String, ◌≡◌, ◌⊎◌, inl, inr, refl, Bool, true, Option,
  none, some, [], ◌∷◌, Dict, get, ok, Returns, ◌≤◌, arith,
}
use imperecta.Payload.{Value, read, str_of}
use imperecta.Signing.{sign, signing_secret}
use imperecta.Firewall.{Gate, Note, Decision, accept}
use imperecta.Firewall.Decided.{IsRejected, reject-IsRejected}
use imperecta.Retention.{
  RetentionTableConfig, retention_tables, is_text, has_retention_keys, refuse_retention,
  close_retention, check_retention, authorize_configured, authorize_retention_delete,
  retention_cutoff, retention_fields, config_of, retention_config_for_table, authorize_table,
}

module _ (g : Gate) (from_isoformat : String → Bool) (has_db : Bool) (source table : String)
    (fields : Dict Value) where
  -- A delete that is signed: the table is whitelisted, the payload holds a cutoff for the column of
  -- the table and nothing else, and the signature is for this payload and no rows by name.
  pub record IsPurge (d : Decision) : Type 0 where
    pub config : RetentionTableConfig
    pub signature : String
    pub whitelisted : get retention_tables table ≡ some config
    pub only_cutoff : has_retention_keys fields ≡ true
    pub right_column : is_text (read fields "cutoff_column") config.cutoff_column ≡ true
    pub cutoff_reads : from_isoformat (str_of (read fields "cutoff")) ≡ true
    pub is_signed : sign g.signer table "retention_delete" fields [] ≡ some signature
    pub carries :
        d.outcome.signed_record
        ≡ some (record {
          table = table;
          operation = "retention_delete";
          locator = [];
          fields = fields;
          signature = signature;
        })
    pub no_rejects : d.rejects ≡ []

  abbrev SoundPurge : Decision → Type 0
  SoundPurge d = IsPurge d ⊎ IsRejected has_db source table "retention_delete" fields d

  refuse-Sound :
      (reason : String) (notes : Dict Note)
      → SoundPurge (refuse_retention g from_isoformat has_db source table fields reason notes)
  unfolding refuse_retention
  refuse-Sound reason notes =
      inr
        (reject-IsRejected has_db source table "retention_delete" reason (reason ∷ []) fields notes)

  close-Sound :
      (config : RetentionTableConfig) (o : Option String)
      → get retention_tables table ≡ some config
      → has_retention_keys fields ≡ true
      → is_text (read fields "cutoff_column") config.cutoff_column ≡ true
      → from_isoformat (str_of (read fields "cutoff")) ≡ true
      → sign g.signer table "retention_delete" fields [] ≡ o
      → SoundPurge
          (close_retention g from_isoformat has_db source table fields config.cutoff_column o)
  unfolding close_retention accept
  close-Sound config none known only column reads e = refuse-Sound "signing_unavailable" []
  close-Sound config (some signature) known only column reads e = inl (record {
    config = config;
    signature = signature;
    whitelisted = known;
    only_cutoff = only;
    right_column = column;
    cutoff_reads = reads;
    is_signed = e;
    carries = refl;
    no_rejects = refl;
  })

  configured-Sound :
      (o : Option RetentionTableConfig)
      → get retention_tables table ≡ o
      → SoundPurge (authorize_configured g from_isoformat has_db source table fields o)
  unfolding authorize_configured check_retention
  configured-Sound none known = refuse-Sound _ _
  configured-Sound (some config) known =
      if_rule SoundPurge _ _ _ (λ _. refuse-Sound _ _)
        λ only.
          if_rule SoundPurge _ _ _ (λ _. refuse-Sound _ _)
            λ column.
              if_rule SoundPurge _ _ _ (λ _. refuse-Sound _ _)
                λ reads.
                  close-Sound config _ known (not-false only) (not-false column) (not-false reads)
                    refl

  -- The retention door signs only a delete on a whitelisted table whose payload is a readable cutoff
  -- for the column of that table and nothing else; every other call is rejected with a reason and,
  -- given a session, one reject row.
  pub authorize_retention_delete-Sound :
      SoundPurge (authorize_retention_delete g from_isoformat has_db source table fields)
  unfolding authorize_retention_delete
  authorize_retention_delete-Sound = configured-Sound (get retention_tables table) refl

fields-pass :
    (g : Gate) (from_isoformat : String → Bool) (isoformat : ℕ → String) (has_db : Bool)
    (source table : String) (config : RetentionTableConfig) (cutoff : ℕ) (secret : String)
    → get retention_tables table ≡ some config
    → signing_secret g.signer ≡ some secret
    → from_isoformat (isoformat cutoff) ≡ true
    → (authorize_retention_delete g from_isoformat has_db source table
        (retention_fields isoformat config cutoff)).outcome.passed
      ≡ true
unfolding authorize_retention_delete authorize_configured check_retention retention_fields
    close_retention has_retention_keys is_text sign accept str_of
fields-pass g from_isoformat isoformat has_db source table config cutoff secret known usable reads =
    rw (known, reads, eq_refl config.cutoff_column) (rw (usable, sign) refl)

cutoff-not_out_of_range :
    (config : RetentionTableConfig) (now : ℕ)
    → 86400 * config.window_days ≤ now
    → retention_cutoff config now ≡ ok (now - 86400 * config.window_days)
unfolding retention_cutoff
cutoff-not_out_of_range config now late = ground arith

-- The delete that a maintenance run asks for passes the door, for every whitelisted table, once the
-- clock is a window past the year 1, a signing secret is configured and `fromisoformat` reads what
-- `isoformat` wrote.
pub authorize_table_passes :
    (g : Gate) (from_isoformat : String → Bool) (isoformat : ℕ → String) (table : String)
    (config : RetentionTableConfig) (now : ℕ) (secret : String)
    → get retention_tables table ≡ some config
    → 86400 * config.window_days ≤ now
    → signing_secret g.signer ≡ some secret
    → ((time : ℕ) → from_isoformat (isoformat time) ≡ true)
    → Returns (λ d. d.outcome.passed ≡ true) (authorize_table g from_isoformat isoformat table now)
unfolding authorize_table retention_config_for_table config_of
authorize_table_passes g from_isoformat isoformat table config now secret known late usable reads =
    rw known (
      rw (cutoff-not_out_of_range config now late) (
        fields-pass g from_isoformat isoformat true "maintenance_retention" table config
          (now - 86400 * config.window_days) secret known usable (reads _)))
