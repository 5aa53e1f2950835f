-- ===== src/Uplink/Life.antt =====
-- The block `uplink` of the config, the client of the connection, and the functions of
-- uplink_life.py. Times are seconds; `parse` stands for `datetime.fromisoformat`, with UTC for a
-- missing zone.
use barhandler_manager.Prelude.{
  ℕ, ◌+◌, String, Bool, true, false, not, ◌&&◌, Option, none, some, List, ◌∷◌, leb, ◌==◌, nat_eq,
  string_eq, if◌then◌else◌,
}

-- The value of `enabled_at`: missing, a date that YAML has read, a text, or another value by its
-- `repr`.
pub data Stamp : Type 0 where
  unset : Stamp
  dated : ℕ → Stamp
  text other : String → Stamp

-- Python's `==` on such values.
unfoldable pub same_stamp : Stamp → Stamp → Bool
same_stamp unset unset = true
same_stamp (dated t) (dated t') = t == t'
same_stamp (text s) (text s') = s == s'
same_stamp (other s) (other s') = s == s'
same_stamp _ _ = false

-- `config["uplink"]`, `app_state.uplink` (a client by its number), the client that `emit_event` goes
-- to, the clients that were stopped, and what config.yaml holds of the block.
pub record Uplink : Type 0 where
  pub enabled : Bool
  pub enabled_at : Stamp
  pub client : Option ℕ
  pub active : Option ℕ
  pub stopped : List ℕ
  pub stored : Bool × Stamp

-- `UPLINK_LIFETIME`
abbrev pub uplink_lifetime : ℕ
uplink_lifetime = 86400

unfoldable pub after_a_day : Option ℕ → Option ℕ
after_a_day none = none
after_a_day (some started) = some (started + uplink_lifetime)

unfoldable pub past : Option ℕ → ℕ → Bool
past none now = true
past (some due) now = leb due now

module _ (parse : String → Option ℕ) where
  -- `enabled_at`
  unfoldable pub enabled_at : Stamp → Option ℕ
  enabled_at unset = none
  enabled_at (dated t) = some t
  enabled_at (text s) = if s == "" then none else parse s
  enabled_at (other s) = none

  -- `expires_at`
  unfoldable pub expires_at : Stamp → Option ℕ
  unfolding after_a_day
  expires_at stamp = after_a_day (enabled_at stamp)

  -- `is_expired`
  unfoldable pub is_expired : Uplink → ℕ → Bool
  unfolding past
  is_expired u now = if u.enabled then past (expires_at u.enabled_at) now else false

unfoldable pub same_client : Option ℕ → Option ℕ → Bool
same_client none none = true
same_client (some c) (some d) = c == d
same_client _ _ = false

unfoldable pub cleared : ℕ → Uplink → Uplink
unfolding same_client
cleared c u = if same_client u.active (some c) then record u { active = none } else u

-- The client is stopped, unless `stop` raises: `meanwhile` is what others do while it is awaited.
unfoldable pub stopping : Bool → (Uplink → Uplink) → Option ℕ → Uplink → Uplink
unfolding cleared
stopping raises meanwhile none u = u
stopping raises meanwhile (some c) u =
    let met = meanwhile u in
    if raises then met else cleared c (record met { stopped = c ∷ met.stopped })

-- The switch is off, and config.yaml says so, unless it could not be written.
unfoldable pub closed : Bool → Uplink → Uplink
closed persists u = record u {
  client = none;
  enabled = false;
  enabled_at = text "";
  stored = if persists then (false, text "") else u.stored;
}

abbrev pub is_none : Option ℕ → Bool
is_none none = true
is_none (some c) = false

-- `shut_down`
unfoldable pub shut_down : Bool → Bool → (Uplink → Uplink) → Uplink → Bool × Uplink
unfolding stopping closed same_stamp
shut_down raises persists meanwhile u =
    let after = stopping raises meanwhile u.client u in
    if not u.enabled && is_none u.client
    then (false, u)
    else if same_stamp after.enabled_at u.enabled_at && same_client after.client u.client
    then (true, closed persists after)
    else (false, after)

-- `expire_if_due`, and a round of `watch`
unfoldable pub expire_if_due :
    (String → Option ℕ) → Bool → Bool → (Uplink → Uplink) → ℕ → Uplink → Bool × Uplink
unfolding shut_down is_expired
expire_if_due parse raises persists meanwhile now u =
    if is_expired parse u now then shut_down raises persists meanwhile u else (false, u)
