-- ===== src/Config/Secrets.antt =====
-- An unreadable secret file stops the start.
use kite_rail.Prelude.{
  ◌≡◌, ◌≢◌, inl, inr, refl, subst, sym, none, List, [], ◌∷◌, map, Holds, Bool-cases,
}
use kite_rail.Prelude.Text.{Text, text_eq, text_eq_iff}
use kite_rail.Prelude.Std.{Std}
use kite_rail.Config.{Config}
use kite_rail.Config.Validate.{Validated, valid, invalid}
use kite_rail.Config.Legacy.{Variables}
use kite_rail.Config.Environment.{Source, getenv, then_with, FileSetting, from_file, from_files}
use kite_rail.Config.Load.{with_parsed, secret_files, load_file, environment_of, load}
use kite_rail.Config.Settings.{with_env}

pub then_with-valid :
    (v : Validated) (f : Config → Validated) (c' : Config)
    → then_with v f ≡ valid c'
    → (c : Config) × (v ≡ valid c) × (f c ≡ valid c')
then_with-valid (valid c) f c' h = (c, refl, h)
then_with-valid (invalid e) f c' h = cc

from_file-Unreadable :
    (src : Source) (std : Std) (path : Text) (put : Text → Config → Config) (c c' : Config)
    → path ≢ []
    → src.read_file path ≡ none
    → from_file src std path put c ≢ valid c'
unfolding from_file
from_file-Unreadable src std path put c c' set missing h = elim (Bool-cases (text_eq path [])) [
  | inl empty ↦ set ((text_eq_iff path []).0 empty)
  | inr other ↦ cc (rw (other, missing) at h)
]

abbrev pub Unreadable : Source → Variables → Text → Type 0
Unreadable src env key = (getenv env key ≢ []) × (src.read_file (getenv env key) ≡ none)

from_files-Unreadable :
    (src : Source) (std : Std) (env : Variables) (files : List FileSetting) (key : Text)
    (c c' : Config)
    → Holds key (map (λ f. f.0) files)
    → Unreadable src env key
    → from_files src std env files c ≢ valid c'
unfolding from_files
from_files-Unreadable src std env [] key c c' m u h = absurd m
from_files-Unreadable src std env ((k, put) ∷ rest) key c c' (inl here) u h =
    let (set, missing) = subst (Unreadable src env) (sym here) u in
    let (d, first, later) =
      then_with-valid (from_file src std (getenv env k) put c) (from_files src std env rest) c' h in
    from_file-Unreadable src std (getenv env k) put c d set missing first
from_files-Unreadable src std env ((k, put) ∷ rest) key c c' (inr there) u h =
    let (d, first, later) =
      then_with-valid (from_file src std (getenv env k) put c) (from_files src std env rest) c' h in
    from_files-Unreadable src std env rest key d c' there u later

-- If a variable for a secret file is set and its file cannot be read, `load` returns no configuration.
pub load-Unreadable :
    (std : Std) (src : Source) (path key : Text)
    → Holds key (map (λ f. f.0) (secret_files std))
    → Unreadable src (environment_of src) key
    → (c' : Config) → load std src path ≢ valid c'
unfolding load
load-Unreadable std src path key m u c' h =
    let env = environment_of src in
    let (c1, e1, h1) = then_with-valid (load_file src path) _ c' h in
    let (c2, e2, h2) =
      then_with-valid (with_parsed src (getenv env) (with_env std (getenv env) c1)) _ c' h1 in
    let (c3, e3, h3) = then_with-valid (from_files src std env (secret_files std) c2) _ c' h2 in
    from_files-Unreadable src std env (secret_files std) key c2 c3 m u e3
