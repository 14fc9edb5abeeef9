-- ===== src/Common/Config/RoundTrip.antt =====
-- The settings, read back from their JSON.
use appytizer_app_server.Base.{
  ◌≡◌, refl, sym, ap, ◌∙◌, Bool, true, false, not, ◌||◌, ◌&&◌, [], ◌∷◌, ◌++◌, map, append_assoc,
  append-nil, arith, some, Text, codes, text_eq, text_eq_iff,
}
use appytizer_app_server.Base.Dict.{Dict, insert, lookup}
use appytizer_app_server.Common.Json.{JsonLib, IsLawful}
use appytizer_app_server.Common.Config.{
  AppConfig, texts_to_json, config_fields, config_to_json, read_text, read_boolean, add_text,
  add_texts, read_texts, config_parse,
}

abbrev pub has_key : Text → Dict Text → Bool
has_key key [] = false
has_key key ((other, value) ∷ d) = text_eq other key || has_key key d

-- Each key stands once, as in a std::map.
abbrev pub are_distinct_keys : Dict Text → Bool
are_distinct_keys [] = true
are_distinct_keys ((key, value) ∷ d) = not (has_key key d) && are_distinct_keys d

insert-new :
    (key value : Text) (d : Dict Text)
    → has_key key d ≡ false
    → insert key value d ≡ d ++ ((key, value) ∷ [])
unfolding insert
insert-new key value [] h = refl
insert-new key value ((k, v) ∷ d) h = ground (arith, insert-new key value d)

has_key-append :
    (key : Text) (d e : Dict Text) → has_key key (d ++ e) ≡ (has_key key d || has_key key e)
has_key-append key [] e = refl
has_key-append key ((k, v) ∷ d) e = ground (arith, has_key-append key d e)

earlier-has_key :
    (done : Dict Text) (key value : Text) (d : Dict Text)
    → are_distinct_keys (done ++ ((key, value) ∷ d)) ≡ true
    → has_key key done ≡ false
earlier-has_key [] key value d h = refl
earlier-has_key ((k, v) ∷ done) key value d h = ground (
  arith,
  earlier-has_key done key value d,
  has_key-append k done ((key, value) ∷ d),
  text_eq_iff k key,
  text_eq_iff key k,
)

module _ (J : JsonLib) (laws : IsLawful J) where
  add_texts-map :
      (d done : Dict Text)
      → are_distinct_keys (done ++ d) ≡ true
      → add_texts J (map (λ e. (e.0, J.string e.1)) d) done ≡ done ++ d
  add_texts-map [] done h = sym (append-nil done)
  add_texts-map ((k, v) ∷ d) done h =
      let next : insert k v done ≡ done ++ ((k, v) ∷ []) =
        insert-new k v done (earlier-has_key done k v d h) in
      let same : done ++ ((k, v) ∷ d) ≡ (done ++ ((k, v) ∷ [])) ++ d =
        sym (append_assoc done ((k, v) ∷ []) d) in
      ap (λ o. add_texts J (map (λ e. (e.0, J.string e.1)) d) (add_text J k o done))
        (laws.as_string_string v)
      ∙ (ap (add_texts J (map (λ e. (e.0, J.string e.1)) d)) next
          ∙ (add_texts-map d (done ++ ((k, v) ∷ [])) (ap are_distinct_keys (sym same) ∙ h)
              ∙ sym same))

  read_texts-object :
      (fs : Dict J.Json) (key : Text) (d : Dict Text)
      → lookup key fs ≡ some (texts_to_json J d)
      → are_distinct_keys d ≡ true
      → read_texts J (J.object fs) key ≡ d
  read_texts-object fs key d there distinct =
      let found = laws.field_object fs key ∙ there in
      rw (found, laws.as_object_object (map (λ e. (e.0, J.string e.1)) d))
        (add_texts-map d [] distinct)

  read_text-object :
      (fs : Dict J.Json) (key default s : Text)
      → lookup key fs ≡ some (J.string s)
      → read_text J (J.object fs) key default ≡ s
  read_text-object fs key default s there =
      rw (laws.field_object fs key ∙ there, laws.as_string_string s) refl

  read_boolean-object :
      (fs : Dict J.Json) (key : Text) (default b : Bool)
      → lookup key fs ≡ some (J.boolean b)
      → read_boolean J (J.object fs) key default ≡ b
  read_boolean-object fs key default b there =
      rw (laws.field_object fs key ∙ there, laws.as_boolean_boolean b) refl

  -- Settings whose maps have each key once come back from their JSON as they were.
  pub config_parse-config_to_json :
      (c : AppConfig)
      → are_distinct_keys c.active_versions ≡ true
      → are_distinct_keys c.service_roots ≡ true
      → config_parse J (config_to_json J c) ≡ c
  unfolding config_parse config_to_json config_fields lookup
  config_parse-config_to_json c versions roots =
      let fs = config_fields J c in
      rw
        (
          read_text-object fs (codes "root_folder") [] c.root_folder refl,
          read_boolean-object fs (codes "https_enabled") true c.https_enabled refl,
          read_boolean-object fs (codes "run_minimized") false c.run_minimized refl,
          read_boolean-object fs (codes "autostart") false c.autostart refl,
          read_texts-object fs (codes "active_versions") c.active_versions refl versions,
          read_texts-object fs (codes "service_roots") c.service_roots refl roots,
        )
        refl
