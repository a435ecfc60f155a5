-- ===== src/Config/Loaded.antt =====
-- What holds of every configuration that `Load` returns.
use kite_rail.Prelude.{◌≡◌, subst, true, false}
use kite_rail.Prelude.Text.{Text, codes}
use kite_rail.Prelude.Std.{Std}
use kite_rail.Config.{Config, member}
use kite_rail.Config.Validate.{valid, validate}
use kite_rail.Config.Rules.{is_production}
use kite_rail.Config.Environment.{Source, getenv, from_files}
use kite_rail.Config.Load.{
  with_parsed, secret_files, with_keys, load_file, environment_of, dev_allowed, load,
}
use kite_rail.Config.Settings.{with_env}
use kite_rail.Config.Secrets.{then_with-valid}
use kite_rail.Config.Duties.{Apart, validate-Apart}
use kite_rail.Config.Production.{Hardened, validate-Hardened}
use kite_rail.Config.Defaults.{Bounded, validate-Bounded}

load-valid :
    (std : Std) (src : Source) (path : Text) (c' : Config)
    → load std src path ≡ valid c'
    → (c : Config) × (validate std (dev_allowed src) c ≡ valid c')
unfolding load
load-valid std src path c' h =
    let env = environment_of src in
    let (c1, e1, h1) = then_with-valid (load_file src path) _ c' h in
    let (c2, e2, h2) =
      then_with-valid (with_parsed src (getenv env) (with_env std (getenv env) c1)) _ c' h1 in
    let (c3, e3, h3) = then_with-valid (from_files src std env (secret_files std) c2) _ c' h2 in
    (with_keys std (getenv env) c3, h3)

-- In a configuration that `load` returns, no token of a reviewer or admin key is one of an agent key
-- or of the other role, and no identity of a reviewer or admin key equals one of an agent key letter
-- for letter. For each reviewer of Slack, either trimming changes it, so it was written with space
-- around it, or its trimmed and lower-cased form, which the Slack app compares with, is no identity
-- of an agent key in lower case.
pub load-Apart :
    (std : Std) (src : Source) (path : Text) (c' : Config)
    → load std src path ≡ valid c'
    → Apart std c'
load-Apart std src path c' h =
    let (c, checked) = load-valid std src path c' h in
    validate-Apart std (dev_allowed src) c c' checked

-- If `load` returns a configuration for production, and the variable that allows development
-- credentials is not 1, its origins have no wildcard, its tokens have at least 24 bytes, no token of
-- an agent has the development prefix, and there is TLS, by files or upstream.
pub load-Hardened :
    (std : Std) (src : Source) (path : Text) (c' : Config)
    → load std src path ≡ valid c'
    → dev_allowed src ≡ false
    → is_production c' ≡ true
    → (member c'.allowed_origins (codes "*") ≡ false) × Hardened c'
load-Hardened std src path c' h strict production =
    let (c, checked) = load-valid std src path c' h in
    validate-Hardened std c c' (subst (λ b. validate std b c ≡ valid c') strict checked) production

-- In a configuration that `load` returns, every timeout and the limit of a body are positive, and
-- the database has no pool of exactly one connection. If it has single sign-on, the lifetimes of a
-- session are positive, its idle time does not exceed the whole, and `openid` is among the scopes.
pub load-Bounded :
    (std : Std) (src : Source) (path : Text) (c' : Config)
    → load std src path ≡ valid c'
    → Bounded c'
load-Bounded std src path c' h =
    let (c, checked) = load-valid std src path c' h in
    validate-Bounded std (dev_allowed src) c c' checked
