-- ===== src/Tests/Audit.antt =====
-- The audit log's theorem at three rows and pages of two, with cursors in unary.
use blank.Prelude.{
  ℕ, zero, suc, ◌≡◌, refl, ap, Option, none, some, List, [], ◌∷◌, arith, ◌==◌, if◌then◌else◌,
}
use blank.Audit.Log.{AuditEvent}
use blank.Audit.Pages.{
  Cursor, CursorCodec, IsCursorCodec, Filters, follow, insert_row, order_by, passes, has_actor,
}
use blank.Audit.Pages.Walk.{listing, follow-listing}

abbrev ones : ℕ → List ℕ → List ℕ
ones zero rest = 0 ∷ rest
ones (suc n) rest = 1 ∷ ones n rest

abbrev one_more : Option (ℕ × List ℕ) → Option (ℕ × List ℕ)
one_more none = none
one_more (some (n, rest)) = some (suc n, rest)

abbrev read : List ℕ → Option (ℕ × List ℕ)
read [] = none
read (b ∷ rest) = let more = one_more (read rest) in if b == 0 then some (0, rest) else more

read-ones : (n : ℕ) (rest : List ℕ) → read (ones n rest) ≡ some (n, rest)
read-ones zero rest = refl
read-ones (suc n) rest = ap one_more (read-ones n rest)

abbrev second : ℕ → Option (ℕ × List ℕ) → Option Cursor
second at none = none
second at (some (id, rest)) = some (record { occurred_at = at; id = id })

abbrev first : Option (ℕ × List ℕ) → Option Cursor
first none = none
first (some (at, rest)) = second at (read rest)

abbrev unary : CursorCodec
unary = record {
  encode = λ c. ones c.occurred_at (ones c.id []);
  decode = λ text. first (read text);
}

unary-IsCursorCodec : IsCursorCodec unary
unary-IsCursorCodec = record {
  decode-encode = λ c. rw (read-ones c.occurred_at (ones c.id [])) (rw (read-ones c.id []) refl);
}

abbrev row : ℕ → ℕ → AuditEvent
row id at = record {
  id = id;
  occurred_at = at;
  actor_user_id = some 10;
  actor_label = "ann@x";
  action = "core.team.created";
  resource_type = "team";
  resource_id = "1";
  payload = "";
}

abbrev log : List AuditEvent
log = row 1 5 ∷ row 3 7 ∷ row 2 7 ∷ []

abbrev everything : Filters
everything = record {
  action = none;
  actor_user_id = none;
  occurred_from = none;
  occurred_to = none;
}

follow-listing_example :
    follow unary 2 everything log 4 none ≡ some (listing unary 2 everything log)
unfolding insert_row order_by passes has_actor
follow-listing_example =
    follow-listing unary 2 everything log 4 unary-IsCursorCodec (omega arith) (ground arith)
      (omega arith)
