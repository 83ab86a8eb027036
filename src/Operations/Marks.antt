-- ===== src/Operations/Marks.antt =====
-- currency/operation_processor.go: what `checkDuplication` finds marked and marks.
use mitum_currency.Prelude.{
  true, false, List, [], ◌∷◌, ok, ◌≡◌, ◌≢◌, refl, ap, inl, inr, Bool-cases, subst, All, ◌==◌,
  eq_refl,
}
use mitum_currency.Prelude.Bytes.{Bytes, bytes_eq_instance}
use mitum_currency.Prelude.Map.{Map, contains, insert, lookup-insert}
use mitum_currency.Operations.{
  OperationProcessor, DuplicationType, any_known, mark_all, check_new_address_duplication,
  check_new_addresses, check_marks,
}

contains-insert :
    {V : Type 0} (k j : Bytes) (v : V) (m : Map Bytes V)
    → contains j m ≡ true
    → contains j (insert k v m) ≡ true
contains-insert k j v m h = elim (Bool-cases (k == j)) [
  | inl same ↦ rw (contains, lookup-insert k j v m, same)
  | inr other ↦ rw (contains, lookup-insert k j v m, other) h
]

contains-insert_self :
    {V : Type 0} (k : Bytes) (v : V) (m : Map Bytes V) → contains k (insert k v m) ≡ true
contains-insert_self k v m = rw (contains, lookup-insert k k v m, eq_refl k)

-- Every key of the first map is one of the second.
unfoldable pub Grows : {V : Type 0} → Map Bytes V → Map Bytes V → Type 0
Grows m m' = (k : Bytes) → contains k m ≡ true → contains k m' ≡ true

mark_all-Grows :
    (known : Map Bytes (Unit {0})) (as' : List Bytes) → Grows known (mark_all known as')
unfolding mark_all Grows
mark_all-Grows known [] k h = h
mark_all-Grows known (a ∷ as') k h =
    mark_all-Grows (insert a tt known) as' k (contains-insert a k tt known h)

abbrev pub Known : Map Bytes (Unit {0}) → List Bytes → Type 0
Known known as' = All (λ a. contains a known ≡ true) as'

abbrev pub Unknown : Map Bytes (Unit {0}) → List Bytes → Type 0
Unknown known as' = All (λ a. contains a known ≡ false) as'

mark_all-Known : (known : Map Bytes (Unit {0})) (as' : List Bytes) → Known (mark_all known as') as'
unfolding mark_all Grows
mark_all-Known known [] = tt
mark_all-Known known (a ∷ as') = (
  mark_all-Grows (insert a tt known) as' a (contains-insert_self a tt known),
  mark_all-Known (insert a tt known) as',
)

any_known-Unknown :
    (known : Map Bytes (Unit {0})) (as' : List Bytes)
    → any_known known as' ≡ false
    → Unknown known as'
unfolding any_known
any_known-Unknown known [] e = tt
any_known-Unknown known (a ∷ as') e = elim (Bool-cases (contains a known)) [
  | inl found ↦ absurd (let f = rw (found, any_known) at e in cc)
  | inr free ↦ (free, any_known-Unknown known as' (rw (free, any_known) at e))
]

-- What is not marked yet, what is marked, and that marks stay.
pub record Passed (opr opr' : OperationProcessor) (did : Bytes) (news : List Bytes) : Type 0 where
  pub id_unknown : did ≢ [] → contains did opr.duplicated ≡ false
  pub id_known : did ≢ [] → contains did opr'.duplicated ≡ true
  pub news_unknown : Unknown opr.duplicated_new_address news
  pub news_known : Known opr'.duplicated_new_address news

pub record Stays (opr opr' : OperationProcessor) : Type 0 where
  pub ids_stay : Grows opr.duplicated opr'.duplicated
  pub news_stay : Grows opr.duplicated_new_address opr'.duplicated_new_address

pub Stays-refl : (opr : OperationProcessor) → Stays opr opr
unfolding Grows
Stays-refl opr = record { ids_stay = λ k h. h; news_stay = λ k h. h }

pub Stays-trans : {a b c : OperationProcessor} → Stays a b → Stays b c → Stays a c
unfolding Grows
Stays-trans s t = record {
  ids_stay = λ k h. t.ids_stay k (s.ids_stay k h);
  news_stay = λ k h. t.news_stay k (s.news_stay k h);
}

check_new_address_duplication-Stays :
    (opr : OperationProcessor) (as' : List Bytes)
    → Stays opr (check_new_address_duplication opr as').1
unfolding check_new_address_duplication Grows
check_new_address_duplication-Stays opr as' =
    elim (Bool-cases (any_known opr.duplicated_new_address as')) [
      | inl known ↦ rw known (Stays-refl opr)
      | inr free ↦ rw free (record {
        ids_stay = λ k h. h;
        news_stay = mark_all-Grows opr.duplicated_new_address as';
      })
    ]

check_new_addresses-Stays :
    (opr : OperationProcessor) (as' : List Bytes) → Stays opr (check_new_addresses opr as').1
unfolding check_new_addresses
check_new_addresses-Stays opr [] = Stays-refl opr
check_new_addresses-Stays opr (a ∷ rest) = check_new_address_duplication-Stays opr (a ∷ rest)

pub check_marks-Stays :
    (opr : OperationProcessor) (did : Bytes) (t : DuplicationType) (as' : List Bytes)
    → Stays opr (check_marks opr did t as').1
unfolding check_marks Grows
check_marks-Stays opr [] t as' = check_new_addresses-Stays opr as'
check_marks-Stays opr (c ∷ cs) t as' = elim (Bool-cases (contains (c ∷ cs) opr.duplicated)) [
  | inl known ↦ rw known (Stays-refl opr)
  | inr free ↦ rw free (
      Stays-trans
        (record {
          ids_stay = λ k. contains-insert (c ∷ cs) k t opr.duplicated;
          news_stay = λ k h. h;
        })
        (check_new_addresses-Stays (record opr { duplicated = insert (c ∷ cs) t opr.duplicated })
          as'))
]

-- What `checkNewAddressDuplication` marks when it passes.
NewsPassed : OperationProcessor → OperationProcessor → List Bytes → Type 0
NewsPassed opr opr' as' =
    Unknown opr.duplicated_new_address as' × Known opr'.duplicated_new_address as'

check_new_addresses-NewsPassed :
    (opr : OperationProcessor) (as' : List Bytes) {opr' : OperationProcessor}
    → check_new_addresses opr as' ≡ (ok tt, opr')
    → NewsPassed opr opr' as'
unfolding check_new_addresses check_new_address_duplication NewsPassed
check_new_addresses-NewsPassed opr [] e = (tt, tt)
check_new_addresses-NewsPassed opr (a ∷ rest) {opr'} e =
    elim (Bool-cases (any_known opr.duplicated_new_address (a ∷ rest))) [
      | inl known ↦ absurd (let f = rw (known, check_new_address_duplication) at e in cc)
      | inr free ↦
          let f = rw (free, check_new_address_duplication) at e in
          let shape : record opr {
            duplicated_new_address = mark_all opr.duplicated_new_address (a ∷ rest);
          }
              ≡ opr' =
            cc in
          (
            any_known-Unknown opr.duplicated_new_address (a ∷ rest) free,
            subst (λ o. Known o.duplicated_new_address (a ∷ rest)) shape
                (mark_all-Known opr.duplicated_new_address (a ∷ rest)),
          )
    ]

pub check_marks-Passed :
    (opr : OperationProcessor) (did : Bytes) (t : DuplicationType) (as' : List Bytes)
    {opr' : OperationProcessor}
    → check_marks opr did t as' ≡ (ok tt, opr')
    → Passed opr opr' did as'
unfolding check_marks NewsPassed Grows
check_marks-Passed opr [] t as' e =
    let (u, k) = check_new_addresses-NewsPassed opr as' e in
    record {
      id_unknown = λ n. absurd (n refl);
      id_known = λ n. absurd (n refl);
      news_unknown = u;
      news_known = k;
    }
check_marks-Passed opr (c ∷ cs) t as' {opr'} e =
    elim (Bool-cases (contains (c ∷ cs) opr.duplicated)) [
      | inl known ↦ absurd (let f = rw (known, check_marks) at e in cc)
      | inr free ↦
          let marked = record opr { duplicated = insert (c ∷ cs) t opr.duplicated } in
          let f = rw (free, check_marks) at e in
          let (u, k) = check_new_addresses-NewsPassed marked as' f in
          let stays : Stays marked opr' =
            subst (Stays marked) (ap (λ r. r.1) f) (check_new_addresses-Stays marked as') in
          record {
            id_unknown = λ n. free;
            id_known =
                λ n. stays.ids_stay (c ∷ cs) (contains-insert_self (c ∷ cs) t opr.duplicated);
            news_unknown = u;
            news_known = k;
          }
    ]
