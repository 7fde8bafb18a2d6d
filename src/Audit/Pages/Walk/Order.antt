-- ===== src/Audit/Pages/Walk/Order.antt =====
-- apps/api/app/audit/router.py: the order of the rows, and the rows behind a cursor.
use blank.Prelude.{
  ◌≡◌, refl, inl, inr, Bool, true, false, some, List, [], ◌∷◌, ◌++◌, arith, ◌==◌, if◌then◌else◌,
  Bool-cases,
}
use blank.Prelude.Table.{select, All, All-weaken, All-select}
use blank.Audit.Log.{AuditEvent}
use blank.Audit.Pages.{cursor_of, is_after, insert_row, order_by, last_of}

abbrev pub HasOtherId : AuditEvent → AuditEvent → Type 0
HasOtherId e y = (y.id == e.id) ≡ false

-- Identifiers are the primary key of the table.
abbrev pub DistinctIds : List AuditEvent → Type 0
DistinctIds [] = Unit {0}
DistinctIds (e ∷ es) = All (HasOtherId e) es × DistinctIds es

abbrev ComesAfter : AuditEvent → AuditEvent → Type 0
ComesAfter e y = is_after (cursor_of e) y ≡ true

-- Each row comes before all that follow it.
abbrev pub IsSorted : List AuditEvent → Type 0
IsSorted [] = Unit {0}
IsSorted (e ∷ es) = All (ComesAfter e) es × IsSorted es

is_after_trans : (a b c : AuditEvent) → ComesAfter a b → ComesAfter b c → ComesAfter a c
is_after_trans a b c h k = ground arith

is_after_total :
    (a b : AuditEvent) → HasOtherId a b → is_after (cursor_of a) b ≡ false → ComesAfter b a
is_after_total a b h k = ground arith

is_after_asym : (a b : AuditEvent) → ComesAfter a b → is_after (cursor_of b) a ≡ false
is_after_asym a b h = ground arith

is_after_irrefl : (a : AuditEvent) → is_after (cursor_of a) a ≡ false
is_after_irrefl a = ground arith

All-insert_row :
    (P : AuditEvent → Type 0) (e : AuditEvent) (xs : List AuditEvent)
    → P e
    → All P xs
    → All P (insert_row e xs)
unfolding insert_row
All-insert_row P e [] p h = (p, tt)
All-insert_row P e (x ∷ xs) p (q, h) = elim (Bool-cases (is_after (cursor_of e) x)) [
  | inl here ↦ rw here (p, (q, h))
  | inr there ↦ rw there (q, All-insert_row P e xs p h)
]

insert_row-IsSorted :
    (e : AuditEvent) (xs : List AuditEvent)
    → All (HasOtherId e) xs
    → IsSorted xs
    → IsSorted (insert_row e xs)
unfolding insert_row
insert_row-IsSorted e [] other s = (tt, tt)
insert_row-IsSorted e (x ∷ xs) (o, other) (before, s) =
    elim (Bool-cases (is_after (cursor_of e) x)) [
      | inl here ↦
          rw here ((here, All-weaken xs (λ y h. is_after_trans e x y here h) before), (before, s))
      | inr there ↦ rw there (
        All-insert_row (ComesAfter x) e xs (is_after_total e x o there) before,
        insert_row-IsSorted e xs other s,
      )
    ]

pub All-order_by : (P : AuditEvent → Type 0) (es : List AuditEvent) → All P es → All P (order_by es)
unfolding order_by
All-order_by P [] h = tt
All-order_by P (e ∷ es) (p, h) = All-insert_row P e (order_by es) p (All-order_by P es h)

pub DistinctIds-select :
    (p : AuditEvent → Bool) (es : List AuditEvent) → DistinctIds es → DistinctIds (select p es)
DistinctIds-select p [] d = tt
DistinctIds-select p (e ∷ es) (o, d) = elim (Bool-cases (p e)) [
  | inl here ↦ rw here (All-select (HasOtherId e) p es o, DistinctIds-select p es d)
  | inr there ↦ rw there (DistinctIds-select p es d)
]

pub order_by-IsSorted : (es : List AuditEvent) → DistinctIds es → IsSorted (order_by es)
unfolding order_by
order_by-IsSorted [] d = tt
order_by-IsSorted (e ∷ es) (o, d) =
    insert_row-IsSorted e (order_by es) (All-order_by (HasOtherId e) es o) (order_by-IsSorted es d)

-- A row that comes before all the others is inserted at the head.
insert_row-head :
    (e : AuditEvent) (xs : List AuditEvent) → All (ComesAfter e) xs → insert_row e xs ≡ e ∷ xs
unfolding insert_row
insert_row-head e [] h = refl
insert_row-head e (x ∷ xs) (p, h) = rw p refl

select-insert_row :
    (p : AuditEvent → Bool) (e : AuditEvent) (xs : List AuditEvent)
    → IsSorted xs
    → select p (insert_row e xs) ≡ (if p e then insert_row e (select p xs) else select p xs)
unfolding insert_row
select-insert_row p e [] s = ground arith
select-insert_row p e (x ∷ xs) (before, s) = elim (Bool-cases (is_after (cursor_of e) x)) [
  | inl here ↦
      let all = All-weaken xs (λ y h. is_after_trans e x y here h) before in
      let head = insert_row-head e (select p xs) (All-select (ComesAfter e) p xs all) in
      ground arith
  | inr there ↦ let rest = select-insert_row p e xs s in ground arith
]

-- The database may select before or after it sorts.
pub select-order_by :
    (p : AuditEvent → Bool) (es : List AuditEvent)
    → DistinctIds es
    → select p (order_by es) ≡ order_by (select p es)
unfolding order_by
select-order_by p [] d = refl
select-order_by p (e ∷ es) (o, d) =
    let rest = select-order_by p es d in
    let inserted = select-insert_row p e (order_by es) (order_by-IsSorted es d) in ground arith

select-All :
    (e : AuditEvent) (xs : List AuditEvent)
    → All (ComesAfter e) xs
    → select (is_after (cursor_of e)) xs ≡ xs
select-All e [] h = refl
select-All e (x ∷ xs) (p, h) = ground (arith, select-All e xs h)

IsSorted-tail : (xs ys : List AuditEvent) → IsSorted (xs ++ ys) → IsSorted ys
IsSorted-tail [] ys s = s
IsSorted-tail (x ∷ xs) ys (b, s) = IsSorted-tail xs ys s

-- The last row of a non-empty list comes after a row that all of it comes after.
last_of-After :
    (e : AuditEvent) (xs ys : List AuditEvent) {l : AuditEvent}
    → All (ComesAfter e) (xs ++ ys)
    → last_of xs ≡ some l
    → ComesAfter e l
unfolding last_of
last_of-After e [] ys h found = cc
last_of-After e (x ∷ []) ys (p, h) found = ground arith
last_of-After e (x ∷ y ∷ xs) ys (p, h) found = last_of-After e (y ∷ xs) ys h found

-- Behind the last row of a part at the front stands the rest.
pub select-suffix :
    (xs ys : List AuditEvent) {l : AuditEvent}
    → IsSorted (xs ++ ys)
    → last_of xs ≡ some l
    → select (is_after (cursor_of l)) (xs ++ ys) ≡ ys
unfolding last_of
select-suffix [] ys s found = cc
select-suffix (x ∷ []) ys {l} (b, s) found =
    let empty = is_after_irrefl x in let all = select-All x ys b in ground arith
select-suffix (x ∷ y ∷ xs) ys {l} (b, s) found =
    let later = last_of-After x (y ∷ xs) ys b found in
    let rest = select-suffix (y ∷ xs) ys s found in
    let gone = is_after_asym x l later in ground arith
