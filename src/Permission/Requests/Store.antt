-- ===== src/Permission/Requests/Store.antt =====
-- `PendingPermissionStore` and the guard of a waiting request. `Arc<Mutex<bool>>` and the one-shot
-- channel of a request are cells at an address, one of each for a request.
use mentra.Base.{
  ℕ, zero, suc, ◌+◌, ◌/◌, ◌%◌, ◌^◌, Option, none, some, [], ◌∷◌, ◌++◌, Bool, true, false, not, ◌==◌,
  if◌then◌else◌,
}
use mentra.Base.Text.{Text, codes, text_eq, hex_digit}
use mentra.Permission.Rules.{PermissionRuleScope}

pub record PermissionDecision : Type 0 where
  pub allow : Bool
  pub remember_as : Option PermissionRuleScope
  pub reason : Option Text

pub record PendingPermissionEntry : Type 0 where
  pub tool_call_id : Text
  pub tool_name : Text
  -- The channel's address.
  pub sender : ℕ

pub record PendingPermission : Type 0 where
  pub generation : ℕ
  -- The lock's address.
  pub lifecycle : ℕ
  pub entry : PendingPermissionEntry

pub record WaitGuard : Type 0 where
  pub request_id : Text
  pub generation : ℕ
  pub lifecycle : ℕ

-- A one-shot channel: the receiver waits, has the answer, or is gone, or the sender is.
pub data Channel : Type 0 where
  waiting : Channel
  answered : PermissionDecision → Channel
  receiver_gone : Channel
  sender_gone : Channel

pub record Requests : Type 0 where
  pub pending : Text → Option PendingPermission
  pub next_generation : ℕ
  -- The next address that is free.
  pub allocated : ℕ
  pub lifecycles : ℕ → Bool
  pub channels : ℕ → Channel

abbrev pub update {ℓ} : {A : Type ℓ} → (ℕ → A) → ℕ → A → ℕ → A
update f a v k = if k == a then v else f k

abbrev pub put {ℓ} : {A : Type ℓ} → (Text → A) → Text → A → Text → A
put f id v k = if text_eq k id then v else f k

-- Dropping a sender wakes a receiver that waits.
abbrev pub drop_sender : Channel → Channel
drop_sender waiting = sender_gone
drop_sender (answered d) = answered d
drop_sender receiver_gone = receiver_gone
drop_sender sender_gone = sender_gone

-- An entry that leaves the map is dropped, with its sender.
abbrev pub drop_entry : PendingPermission → Requests → Requests
drop_entry p st = record st {
  channels = update st.channels p.entry.sender (drop_sender (st.channels p.entry.sender));
}

-- `*lifecycle = value`.
abbrev pub set_lifecycle : ℕ → Bool → Requests → Requests
set_lifecycle a active st = record st { lifecycles = update st.lifecycles a active }

abbrev pub replace_entry : Option PendingPermission → Requests → Requests
replace_entry none st = st
replace_entry (some replaced) st = set_lifecycle replaced.lifecycle false (drop_entry replaced st)

-- `insert_with_generation`, with the lock that it makes.
unfoldable pub insert_with_generation :
    Text → ℕ → PendingPermissionEntry → Requests → WaitGuard × Requests
insert_with_generation request_id generation entry st =
    let lifecycle = st.allocated in
    let stored : PendingPermission = record {
      generation = generation;
      lifecycle = lifecycle;
      entry = entry;
    } in
    let made : Requests =
      set_lifecycle lifecycle true (record st { allocated = suc st.allocated }) in
    let inserted : Requests = record made { pending = put st.pending request_id (some stored) } in
    (
      record { request_id = request_id; generation = generation; lifecycle = lifecycle },
      replace_entry (st.pending request_id) inserted,
    )

-- `{:016x}`, of a number below 16 to the width.
unfoldable pub hex_padded : ℕ → ℕ → Text
hex_padded zero n = []
hex_padded (suc width) n = hex_padded width (n / 16) ++ (hex_digit (n % 16) ∷ [])

abbrev pub request_id_of : Text → ℕ → Text
request_id_of tool_call_id generation =
    codes "perm-" ++ (tool_call_id ++ (codes "-" ++ hex_padded 16 generation))

-- `insert_unique` after `fetch_add`, which wraps, on the channel that `authorize` made.
unfoldable pub insert_unique : Text → Text → Requests → WaitGuard × Requests
insert_unique tool_call_id tool_name st =
    let generation = st.next_generation in
    let entry : PendingPermissionEntry = record {
      tool_call_id = tool_call_id;
      tool_name = tool_name;
      sender = st.allocated;
    } in
    insert_with_generation (request_id_of tool_call_id generation) generation entry (record st {
      next_generation = (generation + 1) % 2 ^ 64;
      channels = update st.channels st.allocated waiting;
    })

unfoldable pub claim : Text → Requests → Option PendingPermission × Requests
claim request_id st =
    (st.pending request_id, record st { pending = put st.pending request_id none })

abbrev pub restore_at :
    Text → PendingPermission → Requests → Option PendingPermission → Bool × Requests
restore_at request_id p st (some other) = (false, drop_entry p st)
restore_at request_id p st none = (true, record st { pending = put st.pending request_id (some p) })

unfoldable pub restore : Text → PendingPermission → Requests → Bool × Requests
restore request_id p st = restore_at request_id p st (st.pending request_id)

abbrev pub cancel_found : Text → ℕ → Requests → Option PendingPermission → Requests
cancel_found request_id generation st none = st
cancel_found request_id generation st (some p) =
    if p.generation == generation
    then drop_entry p (record st { pending = put st.pending request_id none })
    else st

unfoldable pub cancel_if_generation : Text → ℕ → Requests → Requests
cancel_if_generation request_id generation st =
    cancel_found request_id generation st (st.pending request_id)

-- `PendingPermissionWaitGuard::drop`.
unfoldable pub drop_guard : WaitGuard → Requests → Requests
drop_guard guard st =
    if not (st.lifecycles guard.lifecycle)
    then st
    else cancel_if_generation guard.request_id guard.generation
        (set_lifecycle guard.lifecycle false st)
