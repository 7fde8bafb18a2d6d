-- ===== src/Audit/Pages.antt =====
-- apps/api/app/audit/router.py: the pages of the audit log, newest first, each with a cursor to the
-- next one. The text of a cursor, by its bytes, is base64 of an instant and
-- an identifier, a parameter.
pub mod Walk
use blank.Prelude.{
  ℕ, zero, suc, ◌+◌, ◌≡◌, Bool, true, false, ◌&&◌, ◌||◌, Option, none, some, List, [], ◌∷◌, ◌++◌,
  String, str_eq, ltb, leb, ◌==◌, if◌then◌else◌, Result, ok, err,
}
use blank.Prelude.Lists.{length, take}
use blank.Prelude.Table.{select}
use blank.Audit.Log.{AuditEvent}

-- The position of a row: its instant, and its identifier among rows of one instant.
pub record Cursor : Type 0 where
  pub occurred_at : ℕ
  pub id : ℕ

-- `_encode_cursor` and `_decode_cursor`, which fails on a text that is no cursor.
pub record CursorCodec : Type 0 where
  pub encode : Cursor → List ℕ
  pub decode : List ℕ → Option Cursor

pub record IsCursorCodec (codec : CursorCodec) : Type 0 where
  pub decode-encode : (c : Cursor) → codec.decode (codec.encode c) ≡ some c

-- The filters of the query.
pub record Filters : Type 0 where
  pub action : Option String
  pub actor_user_id : Option ℕ
  pub occurred_from : Option ℕ
  pub occurred_to : Option ℕ

pub record Page : Type 0 where
  pub items : List AuditEvent
  pub next_cursor : Option (List ℕ)

abbrev pub cursor_of : AuditEvent → Cursor
cursor_of e = record { occurred_at = e.occurred_at; id = e.id }

-- The row comes after the cursor: it is older, or of the same instant with a lower identifier.
abbrev pub is_after : Cursor → AuditEvent → Bool
is_after c e = ltb e.occurred_at c.occurred_at || (e.occurred_at == c.occurred_at && ltb e.id c.id)

-- `ORDER BY occurred_at DESC, id DESC`
unfoldable pub insert_row : AuditEvent → List AuditEvent → List AuditEvent
insert_row e [] = e ∷ []
insert_row e (x ∷ xs) =
    let rest = insert_row e xs in if is_after (cursor_of e) x then e ∷ x ∷ xs else x ∷ rest

unfoldable pub order_by : List AuditEvent → List AuditEvent
unfolding insert_row
order_by [] = []
order_by (e ∷ es) = insert_row e (order_by es)

unfoldable pub has_actor : ℕ → Option ℕ → Bool
has_actor actor none = false
has_actor actor (some user_id) = user_id == actor

-- The conditions that the filters add.
unfoldable pub passes : Filters → AuditEvent → Bool
unfolding has_actor
passes f e =
    (elim f.action [ none ↦ true | some action ↦ str_eq e.action action ])
    && (elim f.actor_user_id [ none ↦ true | some actor ↦ has_actor actor e.actor_user_id ])
    && (elim f.occurred_from [ none ↦ true | some start ↦ leb start e.occurred_at ])
    && (elim f.occurred_to [ none ↦ true | some end ↦ leb e.occurred_at end ])

abbrev pub within_page : Option Cursor → AuditEvent → Bool
within_page none e = true
within_page (some c) e = is_after c e

pub last_of : List AuditEvent → Option AuditEvent
last_of [] = none
last_of (e ∷ []) = some e
last_of (e ∷ x ∷ xs) = last_of (x ∷ xs)

module _ (codec : CursorCodec) (limit : ℕ) (filters : Filters) (log : List AuditEvent) where
  pub cursor_text : Option AuditEvent → Option (List ℕ)
  cursor_text none = none
  cursor_text (some e) = some (codec.encode (cursor_of e))

  -- A page of at most `limit` rows; one row more is read, to see whether there is a next page.
  pub page_at : Option Cursor → Page
  unfolding cursor_text
  page_at cursor =
      let rows =
        take (suc limit) (order_by (select (λ e. within_page cursor e && passes filters e) log)) in
      let items = take limit rows in
      record {
        items = items;
        next_cursor = if ltb limit (length rows) then cursor_text (last_of items) else none;
      }

  decoded : Option Cursor → Result ℕ Page
  decoded none = err 400
  decoded (some c) = ok (page_at (some c))

  -- `audit_events_list`, for a limit that the route has checked: from 1 to 200.
  pub audit_events_list : Option (List ℕ) → Result ℕ Page
  unfolding decoded page_at
  audit_events_list none = ok (page_at none)
  audit_events_list (some text) = decoded (codec.decode text)

  -- A client that follows the cursors, for a number of requests: what it has read when there is no
  -- next page.
  pub follow : ℕ → Option (List ℕ) → Option (List AuditEvent)
  follow zero cursor = none
  follow (suc requests) cursor = elim (audit_events_list cursor) [
    | err e ↦ none
    | ok page ↦ elim page.next_cursor [
      | none ↦ some page.items
      | some next ↦ elim (follow requests (some next)) [
        | none ↦ none
        | some rest ↦ some (page.items ++ rest)
      ]
    ]
  ]
