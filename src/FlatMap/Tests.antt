-- ===== src/FlatMap/Tests.antt =====
-- An association list that meets the interface.
use cpp_template.Base.{
  suc, ◌+◌, true, false, none, some, List, [], ◌∷◌, ◌≡◌, ◌≢◌, refl, sym, ◌∙◌, ap, Bytes, same,
  same_iff, same_refl, length, if◌then◌else◌, arith, Bool-cases, inl, inr,
}
use cpp_template.FlatMap.{FlatMap, lookup, lookup_here, lookup_there, Separate}

abbrev pub Entries : Type 0
Entries = List (Bytes × Bytes)

unfoldable pub without : Bytes → Entries → Entries
without k [] = []
without k ((j, v) ∷ l) = if same k j then without k l else (j, v) ∷ without k l

pub lookup-without_self : (k : Bytes) (l : Entries) → lookup k (without k l) ≡ none
unfolding lookup without
lookup-without_self k [] = refl
lookup-without_self k ((j, v) ∷ l) = elim (Bool-cases (same k j)) [
  | inl here ↦ rw here (lookup-without_self k l)
  | inr there ↦ rw (there, there) (lookup-without_self k l)
]

true_ne_false : true ≢ false
true_ne_false e = cc

ne_of_same : {k j : Bytes} → same k j ≡ false → j ≢ k
ne_of_same {k} {j} h e = true_ne_false (sym ((same_iff k j).1 (sym e)) ∙ h)

some_ne_none : {v : Bytes} → some v ≢ none
some_ne_none e = cc

same_ne : {j k : Bytes} → j ≢ k → same j k ≡ false
same_ne {j} {k} n = elim (Bool-cases (same j k)) [
  | inl here ↦ absurd (n ((same_iff j k).0 here))
  | inr there ↦ there
]

pub lookup-without_ne : (j k : Bytes) (l : Entries) → j ≢ k → lookup j (without k l) ≡ lookup j l
unfolding lookup without
lookup-without_ne j k [] n = refl
lookup-without_ne j k ((i, v) ∷ l) n = elim (Bool-cases (same k i)) [
  | inl here ↦
      let other : same j i ≡ false = same_ne (λ e. n (e ∙ sym ((same_iff k i).0 here))) in
      rw (here, other) (lookup-without_ne j k l n)
  | inr there ↦ rw there (ap (λ r. if same j i then some v else r) (lookup-without_ne j k l n))
]

pub without-Separate : (k : Bytes) (l : Entries) → Separate l → Separate (without k l)
unfolding without
without-Separate k [] s = s
without-Separate k ((j, v) ∷ l) s = elim (Bool-cases (same k j)) [
  | inl here ↦ rw here (without-Separate k l s.1)
  | inr there ↦
      rw there (lookup-without_ne j k l (ne_of_same there) ∙ s.0, without-Separate k l s.1)
]

pub length-without_absent :
    (k : Bytes) (l : Entries) → lookup k l ≡ none → length (without k l) ≡ length l
unfolding lookup without
length-without_absent k [] h = refl
length-without_absent k ((j, v) ∷ l) h = elim (Bool-cases (same k j)) [
  | inl here ↦ absurd (some_ne_none (sym (lookup_here k j v l here) ∙ h))
  | inr there ↦ rw there (ap suc (length-without_absent k l (sym (lookup_there k j v l there) ∙ h)))
]

pub length-without_present :
    (k : Bytes) (l : Entries) {u : Bytes}
    → Separate l
    → lookup k l ≡ some u
    → length (without k l) + 1 ≡ length l
unfolding lookup without
length-without_present k [] s h = cc
length-without_present k ((j, v) ∷ l) s h = elim (Bool-cases (same k j)) [
  | inl here ↦ rw here (
      omega (arith, length-without_absent k l (ap (λ i. lookup i l) ((same_iff k j).0 here) ∙ s.0)))
  | inr there ↦
      rw there
        (omega (arith, length-without_present k l s.1 (sym (lookup_there k j v l there) ∙ h)))
]

abbrev pub put_entry : Bytes → Bytes → ((l : Entries) × Separate l) → ((l : Entries) × Separate l)
put_entry k v (l, s) = ((k, v) ∷ without k l, (lookup-without_self k l, without-Separate k l s))

pub put_here :
    (k v : Bytes) (m : (l : Entries) × Separate l) → lookup k (put_entry k v m).0 ≡ some v
put_here k v (l, s) = lookup_here k k v (without k l) (same_refl k)

pub put_elsewhere :
    (k v : Bytes) (m : (l : Entries) × Separate l) (j : Bytes)
    → j ≢ k
    → lookup j (put_entry k v m).0 ≡ lookup j m.0
put_elsewhere k v (l, s) j n =
    lookup_there j k v (without k l) (same_ne n) ∙ lookup-without_ne j k l n

abbrev pub assoc_maps : FlatMap
assoc_maps = record {
  Map = (l : Entries) × Separate l;
  empty = ([], tt);
  find = λ k m. lookup k m.0;
  insert = put_entry;
  assign = put_entry;
  erase = λ k m. (without k m.0, without-Separate k m.0 m.1);
  entries = λ m. m.0;
  entries-empty = refl;
  entries-Separate = λ m. m.1;
  find-entries = λ k m. refl;
  find-insert = λ k v m h c.
      (put_here k v m, put_elsewhere k v m, omega (arith, length-without_absent k m.0 h));
  find-assign = λ k v m h.
      (put_here k v m, put_elsewhere k v m, omega (arith, length-without_present k m.0 m.1 h));
  find-erase = λ k m. (
    lookup-without_self k m.0,
    λ j n. lookup-without_ne j k m.0 n,
    length-without_absent k m.0,
    λ u h. length-without_present k m.0 m.1 h,
  );
}
