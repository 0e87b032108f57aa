-- ===== src/Auth/Manager/Laws.antt =====
-- Authentication against the cache, in terms of the users that were added.
use aevum.Prelude.{
  ◌≡◌, refl, ◌≢◌, [], ◌∷◌, Str, none, some, lookup, lookup-emplace, str_eq, str_eq_iff, arith,
  if◌then◌else◌,
}
use aevum.Util.Hash.{djb2_string}
use aevum.Auth.Role.{UserRole}
use aevum.Auth.Manager.{AuthManager, authenticate, add_user, role_or_none}

-- Authentication after a user was added: a key whose hash is another sees what it saw before; a
-- non-empty key with the hash added gets the role added, unless the hash was there already: then
-- the old role stays.
pub authenticate-add_user :
    (m : AuthManager) (h : Str) (r : UserRole) (key : Str)
    → key ≢ []
    → authenticate (add_user m h r) key ≡ (
        if str_eq h (djb2_string key)
        then role_or_none (elim (lookup h m.auth_cache) [ none ↦ some r | some old ↦ some old ])
        else authenticate m key)
unfolding authenticate add_user
authenticate-add_user m h r [] ne = absurd (ne refl)
authenticate-add_user m h r (c ∷ k) ne =
    rw lookup-emplace (ground (arith, str_eq_iff h (djb2_string (c ∷ k))))
