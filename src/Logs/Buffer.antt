-- ===== src/Logs/Buffer.antt =====
-- `SocketIOLogHandler`: `emit`, `_requeue_payload`, `flush_buffer`, `_say_deferred`. A line is told by
-- a number; what the client answers is an argument of each call.
use barhandler_manager.Prelude.{ℕ, zero, suc, Bool, List, [], ◌∷◌, ◌++◌, length, ltb, if◌then◌else◌}

-- What the buffer holds: a record that was never sent, or a payload that came back.
pub data Item : Type 0 where
  record_of payload_of : ℕ → Item

abbrev pub line_of : Item → ℕ
line_of (record_of n) = n
line_of (payload_of n) = n

-- What `client.emit` does: it takes the line, answers `False`, or raises.
pub data Answer : Type 0 where
  taken no_loop raises : Answer

-- `client.connected` and what `client.emit` does, at one moment.
pub record Shot : Type 0 where
  pub connected : Bool
  pub answer : Answer

-- `_buffer` with its `maxlen`, `_deferred`, the lines that the client took, the counts that it was
-- told of deferred lines; and, for the account, the lines that were dropped from a full buffer and
-- those that the client raised at.
pub record Handler : Type 0 where
  pub limit : ℕ
  pub buffer : List Item
  pub deferred : ℕ
  pub handed : List ℕ
  pub notices : List ℕ
  pub dropped : List ℕ
  pub lost : List ℕ

-- `SocketIOLogHandler(client, buffer_limit)`
abbrev pub fresh : ℕ → Handler
fresh limit = record {
  limit = limit;
  buffer = [];
  deferred = 0;
  handed = [];
  notices = [];
  dropped = [];
  lost = [];
}

-- `deque.append` on a deque with a `maxlen`: a full one loses its first item.
unfoldable pub without_first : List Item → Item → List ℕ → List Item × List ℕ
without_first [] item dropped = ([], line_of item ∷ dropped)
without_first (old ∷ rest) item dropped = (rest ++ item ∷ [], line_of old ∷ dropped)

unfoldable pub append : Item → Handler → Handler
unfolding without_first
append item h =
    let full = without_first h.buffer item h.dropped in
    if ltb (length h.buffer) h.limit
    then record h { buffer = h.buffer ++ item ∷ [] }
    else record h { buffer = full.0; dropped = full.1 }

-- `emit`
unfoldable pub emitting : Answer → ℕ → Handler → Handler
unfolding append
emitting taken line h = record h { handed = line ∷ h.handed }
emitting no_loop line h =
    let kept = append (payload_of line) h in record kept { deferred = suc kept.deferred }
emitting raises line h = record h { lost = line ∷ h.lost }

unfoldable pub emit : Shot → ℕ → Handler → Handler
unfolding emitting append
emit shot line h = if shot.connected then emitting shot.answer line h else append (record_of line) h

-- `_requeue_payload`
unfoldable pub requeue : ℕ → Handler → Handler
unfolding append
requeue line h = append (payload_of line) h

-- `_say_deferred`
unfoldable pub notice : Answer → ℕ → Handler → Handler
notice raises count h = h
notice _ count h = record h { deferred = 0; notices = count ∷ h.notices }

unfoldable pub say : Shot → ℕ → Handler → Handler
unfolding notice
say shot zero h = h
say shot (suc n) h = if shot.connected then notice shot.answer (suc n) h else h

unfoldable pub say_deferred : Shot → Handler → Handler
unfolding say
say_deferred shot h = say shot h.deferred h

-- The loop of `flush_buffer`, on the items that are left: `shots` answers for each of them in turn,
-- `last` for the notice at the end.
unfoldable pub drain : (ℕ → Shot) → Shot → List Item → Handler → Handler
unfolding say_deferred
drain shots last [] h = say_deferred last (record h { buffer = [] })
drain shots last (item ∷ rest) h =
    let stopped = record h { buffer = item ∷ rest } in
    let further =
      drain (λ n. shots (suc n)) last rest (record h { handed = line_of item ∷ h.handed }) in
    if (shots 0).connected
    then elim (shots 0).answer [ taken ↦ further | no_loop ↦ stopped | raises ↦ stopped ]
    else say_deferred last stopped

-- `flush_buffer`
unfoldable pub flush_buffer : (ℕ → Shot) → Shot → Handler → Handler
unfolding drain
flush_buffer shots last h = drain shots last h.buffer h
