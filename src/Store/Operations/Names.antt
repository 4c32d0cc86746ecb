-- ===== src/Store/Operations/Names.antt =====
-- What the transactions of internal/state keep of the orders: each conversation's names messages of
-- its own.
use agent_state.Common.{
  ◌≡◌, ◌≢◌, sym, ap, ◌∙◌, subst, inl, inr, refl, Bool-cases, false, ◌==◌, ==_iff, List, [], ◌∷◌,
  ◌++◌, All, arith,
}
use mathlib.Core.Path.{subst₂}
use agent_state.Errors.{Uuid}
use agent_state.Message.{Time, Message, AppendMessageInput}
use agent_state.Message.Columns.{MapJson}
use agent_state.Message.Row.{MessageRow}
use agent_state.Database.{Tables, Driver}
use agent_state.Database.Among.{Among}
use agent_state.Database.Statements.{select_order, contains}
use agent_state.Database.WellFormed.{All-append, All-map}
use agent_state.Store.{ConversationMetadata}
use agent_state.Store.Appended.{Appended}
use agent_state.Store.Deleted.{Deleted}
use agent_state.Store.Distinct.{IsDistinct, Avoids, around-Avoids}
use agent_state.Store.Names.{Has, NamesOwn, Among-append_left, Among-append_right, Among-Thinned}
use agent_state.Store.Range.{
  ReplaceRangeSpec, ReplaceRangeResult, DeleteRangeSpec, DeleteRangeResult,
}
use agent_state.Store.Replaced.{Replaced}
use agent_state.Store.Rounds.{AllStored, none_left, one_more, message_ids}
use agent_state.Store.Thinned.{Among-contains}

-- The messages of a conversation's tables and its order, each as another list.
pub All-same :
    (id : Uuid) {messages messages' : List MessageRow} {order order' : List Uuid}
    → messages' ≡ messages
    → order' ≡ order
    → All (λ x. Has messages id x) order
    → All (λ x. Has messages' id x) order'
All-same id e f h = subst₂ (λ ms xs. All (λ x. Has ms id x) xs) (sym e) (sym f) h

-- A conversation's own order and those of the others.
each_order :
    (id : Uuid) (t t' : Tables)
    → All (λ x. Has t'.messages id x) (select_order id t')
    → ((other : Uuid) → other ≢ id → All (λ x. Has t'.messages other x) (select_order other t'))
    → NamesOwn t'
each_order id t t' own others other = elim (Bool-cases (id == other)) [
  | inl same ↦
      subst (λ k. All (λ x. Has t'.messages k x) (select_order k t')) ((==_iff id other).0 same) own
  | inr differs ↦ others other (λ e. ground (arith, (==_iff id other).1 (sym e)))
]

more_Has :
    (messages rows : List MessageRow) (id x : Uuid)
    → Has messages id x
    → Has (messages ++ rows) id x
more_Has messages rows id x (r, place, e, f) = (r, Among-append_left r messages rows place, e, f)

-- The rows that an append stores are those of the messages that it returns.
stored_Has :
    (json : MapJson) (d : Driver) (id : Uuid) (now : Time) {inputs : List AppendMessageInput}
    {ms : List Message} {rows : List MessageRow}
    → AllStored json d id now inputs ms rows
    → All (λ x. Has rows id x) (message_ids ms)
stored_Has json d id now none_left = tt
stored_Has json d id now (one_more {m = m} {row = row} {ms = ms} {rows = rows} first rest) = (
  (
    row,
    inl refl,
    ap (λ (r : MessageRow). r.id) first.inserted,
    ap (λ (r : MessageRow). r.conversation_id) first.inserted,
  ),
  All-map (λ x. Has rows id x) (λ x. Has (row ∷ rows) id x) (message_ids ms)
      (λ x (r, place, e, f). (r, inr place, e, f)) (stored_Has json d id now rest),
)

pub Appended-NamesOwn :
    (json : MapJson) (d : Driver) (id : Uuid) (now : Time) (inputs : List AppendMessageInput)
    (t t' : Tables) {m : ConversationMetadata} {ms : List Message}
    → NamesOwn t
    → Appended json d id now inputs t m ms t'
    → NamesOwn t'
Appended-NamesOwn json d id now inputs t t' {ms = ms} own a =
    let all = t.messages ++ a.rows in
    let kept : (other : Uuid) → All (λ x. Has all other x) (select_order other t) =
      λ other. All-map _ _ (select_order other t) (more_Has t.messages a.rows other) (own other) in
    let new : All (λ x. Has all id x) (message_ids ms) =
      All-map _ _ (message_ids ms)
        (λ x (r, place, e, f). (r, Among-append_right r t.messages a.rows place, e, f))
        (stored_Has json d id now a.stored) in
    each_order id t t'
      (All-same id a.messages a.ordered
        (All-append _ (select_order id t) (message_ids ms) (kept id) new))
      (λ other ne. All-same other a.messages (a.other_orders other ne) (kept other))

-- The two ends of a list, and what stands between them.
All-ends :
    (P : Uuid → Type 0) (before mid after : List Uuid)
    → All P (before ++ (mid ++ after))
    → All P before × All P after
All-ends P [] [] after h = (tt, h)
All-ends P [] (m ∷ mid) after h = All-ends P [] mid after h.1
All-ends P (b ∷ before) mid after h =
    let rest = All-ends P before mid after h.1 in ((h.0, rest.0), rest.1)

pub Replaced-NamesOwn :
    (id : Uuid) (spec : ReplaceRangeSpec) (t t' : Tables) {r : ReplaceRangeResult}
    → NamesOwn t
    → All (λ x. Has t.messages id x) spec.insert_ids
    → Replaced id spec t r t'
    → NamesOwn t'
Replaced-NamesOwn id spec t t' {r} own inserted p =
    let P : Uuid → Type 0 = λ x. Has t.messages id x in
    let (front, back) =
      All-ends P p.before r.replaced_message_ids p.after (subst (All P) p.was (own id)) in
    each_order id t t'
      (All-same id p.written.new_messages p.written.ordered (
        All-append P p.before (spec.insert_ids ++ p.after) front
          (All-append P spec.insert_ids p.after inserted back)))
      (λ other ne.
        All-same other p.written.new_messages (p.written.other_orders other ne) (own other))

-- A message that is not deleted is still there.
left_Has :
    (id : Uuid) (spec : DeleteRangeSpec) (t t' : Tables) (r : DeleteRangeResult)
    → Deleted id spec t r t'
    → (other x : Uuid) → (other ≡ id → contains x r.deleted_message_ids ≡ false)
    → Has t.messages other x
    → Has t'.messages other x
left_Has id spec t t' r p other x spared (m, place, e, f) = (
  m,
  Among-Thinned p.removed place (λ h.
      let away = spared (sym f ∙ h.0) in
      let found =
        Among-contains x r.deleted_message_ids (subst (λ y. Among y r.deleted_message_ids) e h.1) in
      ground arith),
  e,
  f,
)

All-both :
    (P Q R : Uuid → Type 0) (xs : List Uuid)
    → ((x : Uuid) → P x → Q x → R x)
    → All P xs
    → All Q xs
    → All R xs
All-both P Q R [] f h k = tt
All-both P Q R (x ∷ xs) f h k = (f x h.0 k.0, All-both P Q R xs f h.1 k.1)

pub Deleted-NamesOwn :
    (id : Uuid) (spec : DeleteRangeSpec) (t t' : Tables) {r : DeleteRangeResult}
    → NamesOwn t
    → IsDistinct (select_order id t)
    → Deleted id spec t r t'
    → NamesOwn t'
Deleted-NamesOwn id spec t t' {r} own distinct p =
    let P : Uuid → Type 0 = λ x. Has t.messages id x in
    let (front, back) =
      All-ends P p.before r.deleted_message_ids p.after (subst (All P) p.was (own id)) in
    let away : Avoids r.deleted_message_ids (p.before ++ p.after) =
      around-Avoids p.before r.deleted_message_ids p.after (subst IsDistinct p.was distinct) in
    each_order id t t'
      (All-same id refl p.written.ordered (
        All-both _ _ _ (p.before ++ p.after)
          (λ x absent h. left_Has id spec t t' r p id x (λ e. absent) h) away
          (All-append P p.before p.after front back)))
      (λ other ne. All-same other refl (p.written.other_orders other ne) (
        All-map _ _ (select_order other t)
          (λ x h. left_Has id spec t t' r p other x (λ e. absurd (ne e)) h) (own other)))
