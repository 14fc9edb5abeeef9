-- ===== src/Common/Config/Saved.antt =====
-- ConfigStore::save and ConfigStore::load, one after the other.
use appytizer_app_server.Base.{
  ◌≡◌, ap, ◌∙◌, ◌⊎◌, true, false, none, some, arith, [], ◌∷◌, ◌++◌, Text, if◌then◌else◌,
}
use appytizer_app_server.Common.Json.{JsonLib, IsLawful}
use appytizer_app_server.Common.Config.{
  AppConfig, SaveFaults, Stored, config_to_json, parsed_or_default, opened, and_then, load,
  retry_rename, save,
}
use appytizer_app_server.Common.Config.RoundTrip.{are_distinct_keys, config_parse-config_to_json}

module _ (J : JsonLib) where
  abbrev pub saved_text : AppConfig → Text
  saved_text c = J.dump_indented (config_to_json J c) ++ (10 ∷ [])

  save-own :
      (faults : SaveFaults) (c : AppConfig) (s : Stored J)
      → faults.writing ≡ false
      → (save J faults c s).1 ≡ true
      → (save J faults c s).0.own ≡ some (saved_text c)
  unfolding save retry_rename
  save-own faults c s written h = ground arith

  -- Once a save has succeeded in which no write failed, a load gives the settings that were saved,
  -- provided that each of their maps has each key once.
  pub load-save :
      IsLawful J
      → (faults : SaveFaults) (c : AppConfig) (s : Stored J)
      → are_distinct_keys c.active_versions ≡ true
      → are_distinct_keys c.service_roots ≡ true
      → faults.writing ≡ false
      → (save J faults c s).1 ≡ true
      → load J (save J faults c s).0 ≡ c
  unfolding load parsed_or_default
  load-save laws faults c s versions roots written h =
      let s' : Stored J = (save J faults c s).0 in
      let text = save-own faults c s written h in
      ap
        (λ o.
          parsed_or_default J
            (and_then J.parse_stream (opened J o (if s'.is_default then s'.legacy else none))))
        text
      ∙ (ap (parsed_or_default J) (laws.parse_stream_line (config_to_json J c))
          ∙ config_parse-config_to_json J laws c versions roots)

  -- A save that fails leaves the file of the settings as it was, or removes it: the latter only
  -- where the rename over the old file failed and the removal of the old file did not.
  pub save_failed :
      (faults : SaveFaults) (c : AppConfig) (s : Stored J)
      → (save J faults c s).1 ≡ false
      → ((save J faults c s).0.own ≡ s.own)
        ⊎ (((save J faults c s).0.own ≡ none)
            × (faults.renaming ≡ true)
            × (faults.removing ≡ false))
  unfolding save retry_rename
  save_failed faults c s h = ground arith
