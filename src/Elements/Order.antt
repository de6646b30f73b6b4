-- ===== src/Elements/Order.antt =====
-- The comparison of a7/q3's elements orders them, with the numbers in front of the texts.
use Prim.Native.Nat.{Ordering}
use Prim.Native.Nat.Ordering.{lt, eq, gt}
use cs213_assignments.Common.{ℕ, ◌≡◌, ap, List}
use cs213_assignments.Common.Int.{compare_ℤ, IsOrder, compare_ℤ-IsOrder}
use cs213_assignments.Elements.{
  Element, int_element, str_element, intcmp, int_compare, str_compare, compare,
}

-- If `strcmp` orders the texts, `compare` orders the elements.
pub compare-IsOrder :
    (strcmp : List ℕ → List ℕ → Ordering) → IsOrder strcmp → IsOrder (compare strcmp)
unfolding compare int_compare str_compare intcmp
compare-IsOrder strcmp o = record {
  equal_self = refl_of;
  equal_only = eq_of;
  turns = lt_of;
  chains = trans;
}
  where
    z : IsOrder compare_ℤ
    z = compare_ℤ-IsOrder

    refl_of : (a : Element) → compare strcmp a a ≡ eq
    refl_of (int_element i) = z.equal_self i
    refl_of (str_element s) = o.equal_self s

    eq_of : (a b : Element) → compare strcmp a b ≡ eq → a ≡ b
    eq_of (int_element i) (int_element j) e = ap int_element (z.equal_only i j e)
    eq_of (int_element i) (str_element t) e = cc
    eq_of (str_element s) (int_element j) e = cc
    eq_of (str_element s) (str_element t) e = ap str_element (o.equal_only s t e)

    lt_of : (a b : Element) → compare strcmp a b ≡ gt → compare strcmp b a ≡ lt
    lt_of (int_element i) (int_element j) e = z.turns i j e
    lt_of (int_element i) (str_element t) e = cc
    lt_of (str_element s) (int_element j) e = cc
    lt_of (str_element s) (str_element t) e = o.turns s t e

    trans :
        (a b c : Element)
        → compare strcmp a b ≡ lt
        → compare strcmp b c ≡ lt
        → compare strcmp a c ≡ lt
    trans (int_element i) (int_element j) (int_element k) d e = z.chains i j k d e
    trans (int_element i) (str_element t) (int_element k) d e = cc
    trans (str_element s) (int_element j) c d e = cc
    trans (int_element i) b (str_element u) d e = cc
    trans (str_element s) (str_element t) (int_element k) d e = cc
    trans (str_element s) (str_element t) (str_element u) d e = o.chains s t u d e
