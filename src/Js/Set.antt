-- ===== src/Js/Set.antt =====
-- JavaScript's `Set<string>`: the members in the order of insertion.
use nestjs_vibe_engine.Prelude.{
  ℕ, String, ◌≡◌, refl, ◌<◌, ◌+◌, Bool, true, false, not, ◌&&◌, ◌||◌, List, [], ◌∷◌, arith, ◌==◌,
  eq_iff, if◌then◌else◌, length,
}

abbrev pub TextSet : Type 0
TextSet = List String

unfoldable pub has : TextSet → String → Bool
has [] x = false
has (y ∷ ys) x = y == x || has ys x

-- set.add(x): nothing changes if x is there.
append_new : TextSet → String → TextSet
append_new [] x = x ∷ []
append_new (y ∷ ys) x = y ∷ append_new ys x

unfoldable pub add : TextSet → String → TextSet
unfolding has append_new
add s x = if has s x then s else append_new s x

-- set.delete(x)
unfoldable pub delete : TextSet → String → TextSet
delete [] x = []
delete (y ∷ ys) x = let rest = delete ys x in if y == x then rest else y ∷ rest

abbrev pub size : TextSet → ℕ
size s = length s

has-append_new : (s : TextSet) (x y : String) → has (append_new s x) y ≡ (x == y || has s y)
unfolding has append_new
has-append_new [] x y = refl
has-append_new (z ∷ s) x y = ground (arith, has-append_new s x y)

pub has-add : (s : TextSet) (x y : String) → has (add s x) y ≡ (x == y || has s y)
unfolding add
has-add s x y = ground (arith, has-append_new s x y, eq_iff x y)

pub has-delete : (s : TextSet) (x y : String) → has (delete s x) y ≡ (not (x == y) && has s y)
unfolding has delete
has-delete [] x y = ground arith
has-delete (z ∷ s) x y = ground (arith, has-delete s x y, eq_iff z x, eq_iff z y, eq_iff x y)

-- Each member stands once.
abbrev pub IsSetOf : TextSet → Type 0
IsSetOf [] = Unit
IsSetOf (x ∷ s) = (has s x ≡ false) × IsSetOf s

append_new-IsSetOf :
    (s : TextSet) (x : String) → has s x ≡ false → IsSetOf s → IsSetOf (append_new s x)
unfolding has append_new
append_new-IsSetOf [] x h d = (refl, tt)
append_new-IsSetOf (y ∷ s) x h d = (
  ground (arith, has-append_new s x y, eq_iff x y, eq_iff y x),
  append_new-IsSetOf s x (ground arith) d.1,
)

pub add-IsSetOf : (s : TextSet) (x : String) → IsSetOf s → IsSetOf (add s x)
unfolding add
add-IsSetOf s x d = ground (arith, append_new-IsSetOf s x)

pub delete-IsSetOf : (s : TextSet) (x : String) → IsSetOf s → IsSetOf (delete s x)
unfolding has delete
delete-IsSetOf [] x d = tt
delete-IsSetOf (y ∷ s) x d = ground (arith, has-delete s x y, delete-IsSetOf s x)

-- The size counts the members: one more for a new member, one less for a member that goes.
size-append_new : (s : TextSet) (x : String) → size (append_new s x) ≡ size s + 1
unfolding append_new
size-append_new [] x = omega arith
size-append_new (y ∷ s) x = omega (arith, size-append_new s x)

pub size-add :
    (s : TextSet) (x : String) → size (add s x) ≡ (if has s x then size s else size s + 1)
unfolding add
size-add s x = ground (arith, size-append_new s x)

delete_absent : (s : TextSet) (x : String) → has s x ≡ false → delete s x ≡ s
unfolding has delete
delete_absent [] x h = refl
delete_absent (y ∷ s) x h = ground (arith, delete_absent s x)

pub size-delete :
    (s : TextSet) (x : String) → IsSetOf s → size (delete s x) + (if has s x then 1 else 0) ≡ size s
unfolding has delete
size-delete [] x d = omega arith
size-delete (y ∷ s) x d = ground (arith, size-delete s x, delete_absent s x, eq_iff y x)

pub has→size : (s : TextSet) (x : String) → has s x ≡ true → 0 < size s
unfolding has
has→size [] x h = absurd (ground arith)
has→size (y ∷ s) x h = omega arith
