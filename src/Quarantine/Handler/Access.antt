-- ===== src/Quarantine/Handler/Access.antt =====
-- Who may decide on held actions.
use kite_rail.Prelude.{◌≡◌, refl, Bool, true, false, Option, none, some, [], if◌then◌else◌, arith}
use kite_rail.Prelude.Text.{Text, codes, strip_suffix, text_eq}
use kite_rail.Prelude.Http.{is_get, is_post}
use kite_rail.Auth.{Identity}
use kite_rail.Quarantine.World.{World, Env, M, on_store}
use kite_rail.Quarantine.Handler.{
  Handler, DenyBody, Request, reviewer_identity, list_pending, get_entry, approve_entry, deny_entry,
  route_post, entry_path, serve_http,
}

-- A computation that neither changes the table nor has an effect outside.
abbrev pub ReadOnly : {A : Type 0} → M A → Type 0
ReadOnly m = (w : World) → ((m w).1.rows ≡ w.rows) × ((m w).1.history ≡ w.history)

module _ {A : Type 0} where
  elim-ReadOnly :
      {B : Type 0} (o : Option B) (m : M A) (k : B → M A)
      → ReadOnly m
      → ((b : B) → ReadOnly (k b))
      → ReadOnly (elim o [ none ↦ m | some b ↦ k b ])
  elim-ReadOnly none m k on_none on_some = on_none
  elim-ReadOnly (some b) m k on_none on_some = on_some b

  if-ReadOnly : (b : Bool) (m k : M A) → ReadOnly m → ReadOnly k → ReadOnly (if b then m else k)
  if-ReadOnly true m k on_true on_false = on_true
  if-ReadOnly false m k on_true on_false = on_false

module _ (env : Env) (h : Handler) where
  list_pending-ReadOnly : (r : Request) → ReadOnly (list_pending env h r)
  unfolding list_pending on_store
  list_pending-ReadOnly r w = ground arith

  get_entry-ReadOnly : (id : Text) → ReadOnly (get_entry env h id)
  unfolding get_entry on_store
  get_entry-ReadOnly id w = (refl, refl)

  approve_entry-ReadOnly :
      (who : Option Identity) (id : Text)
      → reviewer_identity who ≡ none
      → ReadOnly (approve_entry env h who id)
  unfolding approve_entry
  approve_entry-ReadOnly who id nobody w = rw (nobody, approve_entry) (refl, refl)

  deny_entry-ReadOnly :
      (who : Option Identity) (id : Text) (body : DenyBody)
      → reviewer_identity who ≡ none
      → ReadOnly (deny_entry env h who id body)
  unfolding deny_entry
  deny_entry-ReadOnly who id body nobody w = rw (nobody, deny_entry) (refl, refl)

  route_post-ReadOnly :
      (r : Request) (path : Text)
      → reviewer_identity r.identity ≡ none
      → ReadOnly (route_post env h r path)
  unfolding route_post
  route_post-ReadOnly r path nobody =
      elim-ReadOnly (strip_suffix (codes "/approve") path) _ _
        (elim-ReadOnly (strip_suffix (codes "/deny") path) _ _ (λ w. (refl, refl))
          (λ id. deny_entry-ReadOnly r.identity id r.body nobody))
        (λ id. approve_entry-ReadOnly r.identity id nobody)

-- A request of whoever is neither a reviewer nor an admin, or is not authenticated, changes no held
-- action and records nothing, whatever its method, path and body are and however the calls go.
pub serve_http-ReadOnly :
    (env : Env) (h : Handler) (r : Request)
    → reviewer_identity r.identity ≡ none
    → ReadOnly (serve_http env h r)
unfolding serve_http
serve_http-ReadOnly env h r nobody =
    if-ReadOnly (is_get r.method) _ _
      (if-ReadOnly (text_eq (entry_path r.path) []) _ _ (list_pending-ReadOnly env h r)
        (get_entry-ReadOnly env h (entry_path r.path)))
      (if-ReadOnly (is_post r.method) _ _ (route_post-ReadOnly env h r (entry_path r.path) nobody)
        (λ w. (refl, refl)))
