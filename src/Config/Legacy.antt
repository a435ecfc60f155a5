-- ===== src/Config/Legacy.antt =====
-- `ApplyLegacyEnv` of backend/internal/config/config.go over the variables of the environment. The
-- names that it returns for a warning at startup are left out.
use kite_rail.Prelude.{
  ◌≡◌, inl, inr, refl, subst, ◌∙◌, Bool, true, false, Option, none, some, List, [], ◌∷◌, ◌++◌,
  Bool-cases, drop, length, if◌then◌else◌,
}
use kite_rail.Prelude.Text.{Text, codes, text_eq, text_eq_iff, has_prefix}

-- The variables, of which the first with a name counts.
abbrev pub Variables : Type 0
Variables = List (Text × Text)

-- `os.LookupEnv`
unfoldable pub lookup_env : Text → Variables → Option Text
lookup_env name [] = none
lookup_env name ((key, value) ∷ env) = if text_eq key name then some value else lookup_env name env

abbrev pub legacy_env_prefix : Text
legacy_env_prefix = codes "KITERAIL_"

module _ (to_upper : Text → Text) where
  abbrev pub is_legacy : Text → Bool
  is_legacy name = has_prefix (to_upper name) legacy_env_prefix

  abbrev pub renamed : Text → Text
  renamed name = codes "ELODEA_" ++ drop (length legacy_env_prefix) name

  abbrev is_some : Option Text → Bool
  is_some none = false
  is_some (some t) = true

  -- `os.Setenv` of a name that is not set.
  unfoldable pub apply_variable : Text × Text → Variables → Variables
  unfolding lookup_env
  apply_variable (name, value) env =
      if is_legacy name
      then if is_some (lookup_env (renamed name) env) then env else (renamed name, value) ∷ env
      else env

  unfoldable pub apply_all : Variables → Variables → Variables
  unfolding apply_variable
  apply_all [] env = env
  apply_all (v ∷ vs) env = apply_all vs (apply_variable v env)

  unfoldable pub apply_legacy_env : Variables → Variables
  unfolding apply_all
  apply_legacy_env env = apply_all env env

  -- What the variables of the old prefix give a name.
  unfoldable pub legacy_value : Text → Variables → Option Text
  legacy_value name [] = none
  legacy_value name ((key, value) ∷ env) =
      let rest = legacy_value name env in
      if is_legacy key then if text_eq (renamed key) name then some value else rest else rest

  abbrev pub or_else : Option Text → Option Text → Option Text
  or_else none o = o
  or_else (some v) o = some v

  add_missing :
      (name key value : Text) (env : Variables) (o : Option Text)
      → lookup_env key env ≡ none
      → or_else (lookup_env name ((key, value) ∷ env)) o
        ≡ or_else (lookup_env name env) (if text_eq key name then some value else o)
  unfolding lookup_env
  add_missing name key value env o h = elim (Bool-cases (text_eq key name)) [
    | inr other ↦ rw other refl
    | inl same ↦
        let unset : lookup_env name env ≡ none =
          subst (λ t. lookup_env t env ≡ none) ((text_eq_iff key name).0 same) h in
        rw (same, unset) refl
  ]

  keep_set :
      (name key v : Text) (env : Variables) (o o' : Option Text)
      → lookup_env key env ≡ some v
      → or_else (lookup_env name env) o
        ≡ or_else (lookup_env name env) (if text_eq key name then o' else o)
  keep_set name key v env o o' h = elim (Bool-cases (text_eq key name)) [
    | inr other ↦ rw other refl
    | inl same ↦
        let set : lookup_env name env ≡ some v =
          subst (λ t. lookup_env t env ≡ some v) ((text_eq_iff key name).0 same) h in
        rw set refl
  ]

  apply_variable_lem :
      (name key value : Text) (env : Variables) (o : Option Text)
      → or_else (lookup_env name (apply_variable (key, value) env)) o
        ≡ or_else
            (lookup_env name env)
            (if is_legacy key then if text_eq (renamed key) name then some value else o else o)
  unfolding apply_variable
  apply_variable_lem name key value env o = elim (Bool-cases (is_legacy key)) [
    | inr other ↦ rw other refl
    | inl old ↦ found (lookup_env (renamed key) env) refl old
  ]
    where
      found :
          (v : Option Text)
          → lookup_env (renamed key) env ≡ v
          → is_legacy key ≡ true
          → or_else (lookup_env name (apply_variable (key, value) env)) o
            ≡ or_else
                (lookup_env name env)
                (if is_legacy key then if text_eq (renamed key) name then some value else o else o)
      found none e old = rw (old, e) (add_missing name (renamed key) value env o e)
      found (some v) e old = rw (old, e) (keep_set name (renamed key) v env o (some value) e)

  or_none : (o : Option Text) → o ≡ or_else o none
  or_none none = refl
  or_none (some v) = refl

  apply_all_lem :
      (name : Text) (vs env : Variables)
      → lookup_env name (apply_all vs env) ≡ or_else (lookup_env name env) (legacy_value name vs)
  unfolding apply_all legacy_value
  apply_all_lem name [] env = or_none (lookup_env name env)
  apply_all_lem name ((key, value) ∷ vs) env =
      apply_all_lem name vs (apply_variable (key, value) env)
      ∙ apply_variable_lem name key value env (legacy_value name vs)

  -- After `apply_legacy_env` a name has the value that it had before, and if it had none, the value
  -- of the first variable of the old prefix that is renamed to it, if there is one.
  pub apply_legacy_env-legacy_value :
      (name : Text) (env : Variables)
      → lookup_env name (apply_legacy_env env)
        ≡ or_else (lookup_env name env) (legacy_value name env)
  unfolding apply_legacy_env
  apply_legacy_env-legacy_value name env = apply_all_lem name env env
