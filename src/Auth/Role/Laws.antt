-- ===== src/Auth/Role/Laws.antt =====
-- The order of the roles, and what a role's name says after it was stored.
use aevum.Prelude.{
  ℕ, ◌≤◌, ◌≡◌, refl, true, false, Str, str_eq, str_eq_iff, lit, arith, ◌⊎◌, inl, inr, ◌↔◌,
}
use aevum.Auth.Role.{
  UserRole, none_role, read_only, read_write, admin, role_to_string, has_permission, stored_role,
  requested_role,
}

-- The numbers of the enumeration.
abbrev pub rank : UserRole → ℕ
rank none_role = 0
rank read_only = 1
rank read_write = 2
rank admin = 3

-- A higher role may do all that a lower one may.
pub has_permission_mono :
    (r s : UserRole) (action : Str)
    → rank r ≤ rank s
    → has_permission r action ≡ true
    → has_permission s action ≡ true
unfolding has_permission
has_permission_mono none_role s a le h = cc
has_permission_mono read_only none_role a le h = absurd (omega arith)
has_permission_mono read_only read_only a le h = h
has_permission_mono read_only read_write a le h = ground arith
has_permission_mono read_only admin a le h = refl
has_permission_mono read_write none_role a le h = absurd (omega arith)
has_permission_mono read_write read_only a le h = absurd (omega arith)
has_permission_mono read_write read_write a le h = h
has_permission_mono read_write admin a le h = refl
has_permission_mono admin none_role a le h = absurd (omega arith)
has_permission_mono admin read_only a le h = absurd (omega arith)
has_permission_mono admin read_write a le h = absurd (omega arith)
has_permission_mono admin admin a le h = refl

-- The four actions that write.
abbrev pub IsWrite : Str → Type 0
IsWrite a = (a ≡ lit "insert") ⊎ ((a ≡ lit "update") ⊎ ((a ≡ lit "upsert") ⊎ (a ≡ lit "delete")))

write-ne-read :
    (a : Str) → IsWrite a → (str_eq a (lit "find") ≡ false) × (str_eq a (lit "count") ≡ false)
unfolding lit str_eq
write-ne-read a (inl e) = rw e (refl, refl)
write-ne-read a (inr (inl e)) = rw e (refl, refl)
write-ne-read a (inr (inr (inl e))) = rw e (refl, refl)
write-ne-read a (inr (inr (inr e))) = rw e (refl, refl)

-- A write is refused exactly for the two lower roles.
pub has_permission-write :
    (r : UserRole) (a : Str) → IsWrite a → (has_permission r a ≡ true) ↔ (2 ≤ rank r)
unfolding has_permission
has_permission-write none_role a w = (λ h. cc, λ h. absurd (omega arith))
has_permission-write read_only a w =
    (λ h. ground (arith, write-ne-read a w), λ h. absurd (omega arith))
has_permission-write read_write a (inl e) =
    (λ h. omega arith, λ h. ground (arith, str_eq_iff a (lit "insert")))
has_permission-write read_write a (inr (inl e)) =
    (λ h. omega arith, λ h. ground (arith, str_eq_iff a (lit "update")))
has_permission-write read_write a (inr (inr (inl e))) =
    (λ h. omega arith, λ h. ground (arith, str_eq_iff a (lit "upsert")))
has_permission-write read_write a (inr (inr (inr e))) =
    (λ h. omega arith, λ h. ground (arith, str_eq_iff a (lit "delete")))
has_permission-write admin a w = (λ h. omega arith, λ h. refl)

-- What a role becomes that is stored under its name and loaded again.
abbrev pub reloaded : UserRole → UserRole
reloaded none_role = read_only
reloaded r = r

-- The name of a role that is stored reads back as that role, but for NONE, which reads back as
-- READ_ONLY.
pub stored_role-role_to_string : (r : UserRole) → stored_role (role_to_string r) ≡ reloaded r
unfolding stored_role role_to_string lit str_eq
stored_role-role_to_string none_role = refl
stored_role-role_to_string read_only = refl
stored_role-role_to_string read_write = refl
stored_role-role_to_string admin = refl

-- A request for a role by its name is granted as that role.
pub requested_role-role_to_string : (r : UserRole) → requested_role (role_to_string r) ≡ r
unfolding requested_role role_to_string lit str_eq
requested_role-role_to_string none_role = refl
requested_role-role_to_string read_only = refl
requested_role-role_to_string read_write = refl
requested_role-role_to_string admin = refl
