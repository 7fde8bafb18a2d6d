-- ===== src/Audit/Pages/Walk.antt =====
-- apps/api/app/audit/router.py: a walk over the pages.
mod Order
use blank.Prelude.{
  ℕ, zero, suc, ◌+◌, ◌≤◌, ◌<◌, ◌≡◌, refl, sym, ap, ◌∙◌, inl, inr, Bool, true, false, not, ◌&&◌,
  ◌||◌, Option, none, some, List, [], ◌∷◌, ◌++◌, String, arith, ltb, leb, ◌==◌, if◌then◌else◌,
  Bool-cases, Option-cases, Result, ok, err,
}
use mathlib.Core.Option
use blank.Prelude.Lists.{
  length, length-take, take, take-all, drop, take-all, take-append-drop, take-take-suc,
  length-take-suc, length-drop, append_assoc,
}
use blank.Prelude.Table.{All, All-weaken, All-take, select, select-select, select-holds}
use blank.Audit.Log.{AuditEvent}
use blank.Audit.Pages.{
  Cursor, CursorCodec, IsCursorCodec, Filters, Page, cursor_of, is_after, within_page, insert_row,
  order_by, passes, last_of, page_at, audit_events_list, follow, cursor_text,
}
use Order.{
  All-order_by, DistinctIds, IsSorted, order_by-IsSorted, select-order_by, select-suffix,
  DistinctIds-select,
}

last_of-append :
    (xs ys : List AuditEvent) {l : AuditEvent} → last_of ys ≡ some l → last_of (xs ++ ys) ≡ some l
unfolding last_of
last_of-append [] ys e = e
last_of-append (x ∷ []) [] e = cc
last_of-append (x ∷ []) (y ∷ ys) e = e
last_of-append (x ∷ z ∷ xs) ys e = last_of-append (z ∷ xs) ys e

last_of-take :
    (n : ℕ) (ys : List AuditEvent)
    → 1 ≤ n
    → n < length ys
    → (l : AuditEvent) × (last_of (take n ys) ≡ some l)
unfolding last_of
last_of-take zero ys h k = absurd (omega arith)
last_of-take (suc n) [] h k = absurd (omega arith)
last_of-take (suc zero) (y ∷ ys) h k = (y, refl)
last_of-take (suc (suc n)) (y ∷ []) h k = absurd (omega arith)
last_of-take (suc (suc n)) (y ∷ z ∷ ys) h k =
    let (l, e) = last_of-take (suc n) (z ∷ ys) (omega arith) (omega arith) in (l, e)

module _ (codec : CursorCodec) (limit : ℕ) (filters : Filters) (log : List AuditEvent) where
  -- All the rows that pass the filters, newest first.
  abbrev pub listing : List AuditEvent
  listing = order_by (select (passes filters) log)

  page_at-rows :
      (cursor : Option Cursor)
      → (page_at codec limit filters log cursor).items
        ≡ take limit (
            take
              (suc limit)
              (order_by (select (λ e. within_page cursor e && passes filters e) log)))
  unfolding page_at
  page_at-rows cursor = refl

  page_at-behind :
      (cursor : Option Cursor) (ys : List AuditEvent)
      → DistinctIds log
      → select (within_page cursor) listing ≡ ys
      → page_at codec limit filters log cursor ≡ record {
        items = take limit ys;
        next_cursor =
            if ltb limit (length ys)
            then cursor_text codec limit filters log (last_of (take limit ys))
            else none;
      }
  unfolding page_at
  page_at-behind cursor ys d here =
      let one =
        select-order_by (within_page cursor) (select (passes filters) log)
          (DistinctIds-select (passes filters) log d) in
      let two = ap order_by (select-select (within_page cursor) (passes filters) log) in
      let rows = sym two ∙ sym one ∙ here in
      rw (rows, take-take-suc limit ys, length-take-suc limit ys) refl

  request :
      (law : IsCursorCodec codec) (cursor : Option Cursor)
      → audit_events_list codec limit filters log (Option.map codec.encode cursor)
        ≡ ok (page_at codec limit filters log cursor)
  unfolding audit_events_list
  request law none = refl
  request law (some c) = rw (law.decode-encode c) refl

  follow_from :
      (law : IsCursorCodec codec) (requests : ℕ) (cursor : Option Cursor) (xs ys : List AuditEvent)
      → 1 ≤ limit
      → DistinctIds log
      → xs ++ ys ≡ listing
      → select (within_page cursor) listing ≡ ys
      → length ys < requests
      → follow codec limit filters log requests (Option.map codec.encode cursor) ≡ some ys
  unfolding follow cursor_text
  follow_from law zero cursor xs ys l d whole here fuel = absurd (omega arith)
  follow_from law (suc requests) cursor xs ys l d whole here fuel =
      let page = page_at-behind cursor ys d here in
      elim (Bool-cases (ltb limit (length ys))) [
        | inr last ↦
            let short : length ys ≤ limit = ground arith in
            rw (request law cursor, page, last, follow) (rw (page, take-all limit ys short) refl)
        | inl more ↦
            let long : limit < length ys = ground arith in
            let (x, found) = last_of-take limit ys l long in
            let zs = drop limit ys in
            let cut = take-append-drop limit ys in
            let split : (xs ++ take limit ys) ++ zs ≡ listing =
              append_assoc xs (take limit ys) zs
              ∙ ap (λ (t : List AuditEvent). xs ++ t) cut
              ∙ whole in
            let ended = last_of-append xs (take limit ys) found in
            let sorted : IsSorted ((xs ++ take limit ys) ++ zs) = rw split (
              order_by-IsSorted (select (passes filters) log)
                (DistinctIds-select (passes filters) log d)) in
            let behind = select-suffix (xs ++ take limit ys) zs sorted ended in
            let rest =
              follow_from law requests (some (cursor_of x)) (xs ++ take limit ys) zs l d split
                (rw (← split) behind) (omega (arith, length-drop limit ys)) in
            rw (request law cursor, page, more, found, follow) (rw (rest, page, cut) refl)
      ]

  select-everything : (es : List AuditEvent) → select (within_page none) es ≡ es
  select-everything [] = refl
  select-everything (e ∷ es) = ap (◌∷◌ e) (select-everything es)

  -- A client that follows the cursors from the first page, with a page size of at least one and
  -- more requests than there are rows that pass the filters, comes to the last page, and has then
  -- read exactly these rows, newest first: none twice and none left out. The identifiers of the
  -- rows differ, and a cursor's text decodes to it.
  pub follow-listing :
      (requests : ℕ)
      → IsCursorCodec codec
      → 1 ≤ limit
      → DistinctIds log
      → length listing < requests
      → follow codec limit filters log requests none ≡ some listing
  follow-listing requests law l d fuel =
      follow_from law requests none [] listing l d refl (select-everything listing) fuel

  -- Each page, for a cursor or none, holds at most as many rows as were asked for, and each of
  -- its rows passes the filters and comes after the cursor.
  pub page_at-bounds :
      (cursor : Option Cursor)
      → (length (page_at codec limit filters log cursor).items ≤ limit)
        × All
            (λ e. (passes filters e ≡ true) × (within_page cursor e ≡ true))
            (page_at codec limit filters log cursor).items
  page_at-bounds cursor =
      let shown = λ (e : AuditEvent). within_page cursor e && passes filters e in
      let rows = order_by (select shown log) in
      let page = page_at-rows cursor in
      rw page (
        length-take limit (take (suc limit) rows),
        All-take _ limit (take (suc limit) rows) (
            All-take _ (suc limit) rows (
              All-order_by _ (select shown log) (
                All-weaken (select shown log) (λ e h. (ground arith, ground arith))
                  (select-holds shown log)))),
      )
