-- ===== src/Store/Keys.antt =====
-- The keys of store.go by their parts. Each part but the family is a keyed name, `names.Of`.
use text.Mathlib.Text.{◌==◌}
use alborz.Prelude.{
  String, Bool, true, false, ◌&&◌, ◌≡◌, ◌≢◌, ◌↔◌, inl, inr, arith, eq_iff, Bool-cases,
}

-- `owner` and `id` are the two parts of a collection's scope.
pub data Key : Type 0 where
  collection : (owner id : String) → Key
  object : (owner id name : String) → Key
  share : (owner id to : String) → Key
  uid : (owner id uid : String) → Key
  public : (secret : String) → Key
  received : (to owner id : String) → Key
  dropped : (owner id : String) → Key
  ctag : Key

unfoldable pub key_eq : Key → Key → Bool
key_eq (collection o i) (collection p j) = o == p && i == j
key_eq (object o i n) (object p j m) = o == p && (i == j && n == m)
key_eq (share o i n) (share p j m) = o == p && (i == j && n == m)
key_eq (uid o i n) (uid p j m) = o == p && (i == j && n == m)
key_eq (public s) (public r) = s == r
key_eq (received o i n) (received p j m) = o == p && (i == j && n == m)
key_eq (dropped o i) (dropped p j) = o == p && i == j
key_eq ctag ctag = true
key_eq _ _ = false

pub key_eq_iff : (a b : Key) → (key_eq a b ≡ true) ↔ (a ≡ b)
unfolding key_eq
key_eq_iff (collection o i) (collection p j) = ground (arith, eq_iff o p, eq_iff i j)
key_eq_iff (object o i n) (object p j m) = ground (arith, eq_iff o p, eq_iff i j, eq_iff n m)
key_eq_iff (share o i n) (share p j m) = ground (arith, eq_iff o p, eq_iff i j, eq_iff n m)
key_eq_iff (uid o i n) (uid p j m) = ground (arith, eq_iff o p, eq_iff i j, eq_iff n m)
key_eq_iff (public s) (public r) = ground (arith, eq_iff s r)
key_eq_iff (received o i n) (received p j m) = ground (arith, eq_iff o p, eq_iff i j, eq_iff n m)
key_eq_iff (dropped o i) (dropped p j) = ground (arith, eq_iff o p, eq_iff i j)
key_eq_iff ctag ctag = ground arith
key_eq_iff _ _ = ground arith

pub key_apart : (a b : Key) → a ≢ b → key_eq a b ≡ false
key_apart a b apart = elim (Bool-cases (key_eq a b)) [
  | inl same ↦ absurd (apart ((key_eq_iff a b).0 same))
  | inr other ↦ other
]
