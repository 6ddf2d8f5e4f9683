-- ===== src/Authz/Grants.antt =====
-- What the roles and a restriction of internal/authz/authz.go grant.
use leser.Prelude.{
  ℕ, ◌≡◌, refl, ap, Bool, true, false, ◌&&◌, ◌||◌, some, List, [], ◌∷◌, ◌++◌, String, eq_iff, arith,
  if◌then◌else◌,
}
use leser.Authz.{
  Permission, AuthContext, has, only, restrict, can, can_project, role_permissions, all_permissions,
  owner, manager, admin, member, billing, read_only,
}

pub has-append :
    (p : Permission) (xs ys : List Permission) → has p (xs ++ ys) ≡ (has p xs || has p ys)
unfolding has
has-append p [] ys = refl
has-append p (x ∷ xs) ys = ground (arith, has-append p xs ys)

has-only :
    (p : Permission) (perms allowed : List Permission)
    → has p (only perms allowed) ≡ (has p allowed && has p perms)
unfolding has only
has-only p perms [] = refl
has-only p perms (q ∷ allowed) =
    ground (arith, has-only p perms allowed, eq_iff q p, ap (λ x. has x perms))

-- A restricted context can do exactly what is allowed and the context could do before; for a project,
-- too.
pub can-restrict :
    (p : Permission) (project : ℕ) (allowed : List Permission) (a : AuthContext)
    → (can p (some (restrict allowed a)) ≡ (has p allowed && can p (some a)))
      × (can_project p project (some (restrict allowed a))
          ≡ (has p allowed && can_project p project (some a)))
unfolding can can_project restrict
can-restrict p project allowed a =
    (has-only p a.perms allowed, ground (arith, has-only p a.perms allowed))

within : List Permission → List Permission → Bool
within [] perms = true
within (p ∷ ps) perms = has p perms && within ps perms

has-within :
    (p : Permission) (ps perms : List Permission)
    → within ps perms ≡ true
    → has p ps ≡ true
    → has p perms ≡ true
unfolding has within
has-within p [] perms w h = cc
has-within p (q ∷ ps) perms w h =
    ground (arith, eq_iff q p, ap (λ x. has x perms), has-within p ps perms)

within-if :
    (t : Bool) (x y perms : List Permission)
    → within x perms ≡ true
    → within y perms ≡ true
    → within (if t then x else y) perms ≡ true
within-if true x y perms p q = p
within-if false x y perms p q = q

role_within : (role : String) → within (role_permissions role) all_permissions ≡ true
unfolding role_permissions
role_within role =
    let o : within owner all_permissions ≡ true = unfold within has in refl in
    let g : within manager all_permissions ≡ true = unfold within has in refl in
    let a : within admin all_permissions ≡ true = unfold within has in refl in
    let m : within member all_permissions ≡ true = unfold within has in refl in
    let b : within billing all_permissions ≡ true = unfold within has in refl in
    let r : within read_only all_permissions ≡ true = unfold within has in refl in
    let e : within [] all_permissions ≡ true = unfold within in refl in
    within-if _ _ _ _ o (
      within-if _ _ _ _ g
        (within-if _ _ _ _ a (within-if _ _ _ _ m (within-if _ _ _ _ b (within-if _ _ _ _ r e)))))

-- Every permission that a role grants is one of the defined ones.
role_permissions-all :
    (role : String) (p : Permission)
    → has p (role_permissions role) ≡ true
    → has p all_permissions ≡ true
role_permissions-all role p h =
    has-within p (role_permissions role) all_permissions (role_within role) h
