-- ===== src/Uplink/Closing.antt =====
-- When remote diagnostics are switched off, and what is left of a session then.
use barhandler_manager.Prelude.{
  ℕ, ◌+◌, ◌≤◌, String, ◌≡◌, refl, ◌⊎◌, inl, inr, ◌↔◌, Bool, true, false, not, ◌&&◌, Option, none,
  some, List, ◌∷◌, arith, leb→le, nat_eq, nat_beq_iff, contains, if◌then◌else◌, Bool-cases, subst,
}
use barhandler_manager.Uplink.Life.{
  Uplink, text, same_stamp, same_client, uplink_lifetime, enabled_at, expires_at, is_expired, past,
  after_a_day, cleared, stopping, closed, is_none, shut_down,
}

past_exact :
    (on : Bool) (start : Option ℕ) (now : ℕ)
    → ((if on then past (after_a_day start) now else false) ≡ true) ↔ (
        (on ≡ true)
        × ((start ≡ none)
            ⊎ ((started : ℕ) × (start ≡ some started) × (started + uplink_lifetime ≤ now))))
unfolding past after_a_day
past_exact true none now = (λ h. (refl, inl refl), λ h. refl)
past_exact true (some t) now = (
  λ h. (refl, inr (t, refl, leb→le (t + uplink_lifetime) now h)),
  λ h. elim h.1 [ inl e ↦ cc e | inr (started, e, late) ↦ ground arith ],
)
past_exact false start now = (λ h. cc h, λ h. cc h.0)

-- A session is over exactly if it is on and either its start is not known or a day has passed.
pub is_expired_exact :
    (parse : String → Option ℕ) (u : Uplink) (now : ℕ)
    → (is_expired parse u now ≡ true) ↔ (
        (u.enabled ≡ true)
        × ((enabled_at parse u.enabled_at ≡ none)
            ⊎ ((started : ℕ) × (enabled_at parse u.enabled_at ≡ some started)
                × (started + uplink_lifetime ≤ now))))
unfolding is_expired expires_at
is_expired_exact parse u now = past_exact u.enabled (enabled_at parse u.enabled_at) now

-- What is found once the client was awaited.
abbrev pub met_by : (Uplink → Uplink) → Option ℕ → Uplink → Uplink
met_by meanwhile none u = u
met_by meanwhile (some c) u = meanwhile u

-- The block and the client of the connection are the same.
pub record Agree (u v : Uplink) : Type 0 where
  pub enabled_agrees : u.enabled ≡ v.enabled
  pub stamp_agrees : u.enabled_at ≡ v.enabled_at
  pub client_agrees : u.client ≡ v.client
  pub stored_agrees : u.stored ≡ v.stored

Agree-refl : (u : Uplink) → Agree u u
Agree-refl u = record {
  enabled_agrees = refl;
  stamp_agrees = refl;
  client_agrees = refl;
  stored_agrees = refl;
}

Agree-cleared : (c : ℕ) (u v : Uplink) → Agree u v → Agree (cleared c u) v
unfolding cleared
Agree-cleared c u v h = elim (Bool-cases (same_client u.active (some c))) [
  | inl e ↦ rw e (record {
    enabled_agrees = h.enabled_agrees;
    stamp_agrees = h.stamp_agrees;
    client_agrees = h.client_agrees;
    stored_agrees = h.stored_agrees;
  })
  | inr e ↦ rw e h
]

Agree-stopping :
    (raises : Bool) (meanwhile : Uplink → Uplink) (client : Option ℕ) (u : Uplink)
    → Agree (stopping raises meanwhile client u) (met_by meanwhile client u)
unfolding stopping
Agree-stopping raises meanwhile none u = Agree-refl u
Agree-stopping true meanwhile (some c) u = Agree-refl (meanwhile u)
Agree-stopping false meanwhile (some c) u = Agree-cleared c _ _ (record {
  enabled_agrees = refl;
  stamp_agrees = refl;
  client_agrees = refl;
  stored_agrees = refl;
})

-- Whether the session that is found after the wait is the one that was to be closed.
abbrev pub is_same_session : Uplink → Uplink → Bool
is_same_session met u = same_stamp met.enabled_at u.enabled_at && same_client met.client u.client

-- The switch is off, and so is config.yaml, where it could be written.
pub record IsClosed (persists : Bool) (u : Uplink) : Type 0 where
  pub is_off : u.enabled ≡ false
  pub no_start : u.enabled_at ≡ text ""
  pub no_client : u.client ≡ none
  pub remembered : persists ≡ true → u.stored ≡ (false, text "")

closed-IsClosed : (persists : Bool) (u : Uplink) → IsClosed persists (closed persists u)
unfolding closed
closed-IsClosed persists u = record {
  is_off = refl;
  no_start = refl;
  no_client = refl;
  remembered = λ e. rw e refl;
}

-- How a call ends: `same` tells whether the session that was found is the one to be closed.
abbrev pub Ended : Bool → Uplink → Bool × Uplink → Bool → Type 0
Ended persists met ended same =
    ((ended.0 ≡ true) × IsClosed persists ended.1 × (same ≡ true))
    ⊎ ((ended.0 ≡ false) × Agree ended.1 met × (same ≡ false))

session :
    (persists : Bool) (after met : Uplink)
    → Agree after met
    → (same : Bool)
    → Ended persists met (if same then (true, closed persists after) else (false, after)) same
session persists after met h true = inl (refl, closed-IsClosed persists after, refl)
session persists after met h false = inr (refl, h, refl)

contains_first : (c : ℕ) (cs : List ℕ) → contains (c ∷ cs) c ≡ true
contains_first c cs = ground (arith, (nat_beq_iff c c).1 refl)

-- The client was stopped, and no event goes to it.
pub record IsSilent (c : ℕ) (u : Uplink) : Type 0 where
  pub was_stopped : contains u.stopped c ≡ true
  pub not_active : same_client u.active (some c) ≡ false

cleared_by :
    (c : ℕ) (u : Uplink) (b : Bool)
    → same_client u.active (some c) ≡ b
    → contains u.stopped c ≡ true
    → IsSilent c (if b then record u { active = none } else u)
unfolding same_client
cleared_by c u true e h = record { was_stopped = h; not_active = refl }
cleared_by c u false e h = record { was_stopped = h; not_active = e }

cleared-IsSilent :
    (c : ℕ) (u : Uplink) → IsSilent c (cleared c (record u { stopped = c ∷ u.stopped }))
unfolding cleared
cleared-IsSilent c u =
    cleared_by c (record u { stopped = c ∷ u.stopped }) _ refl (contains_first c u.stopped)

stopping-IsSilent :
    (meanwhile : Uplink → Uplink) (u : Uplink) (c : ℕ) (client : Option ℕ)
    → client ≡ some c
    → IsSilent c (stopping false meanwhile client u)
unfolding stopping
stopping-IsSilent meanwhile u c none e = cc e
stopping-IsSilent meanwhile u c (some d) e =
    let same : d ≡ c = ground arith in
    subst (λ k. IsSilent k (stopping false meanwhile (some d) u)) same
      (cleared-IsSilent d (meanwhile u))

closed-IsSilent :
    (persists : Bool) (c : ℕ) (u : Uplink) → IsSilent c u → IsSilent c (closed persists u)
unfolding closed
closed-IsSilent persists c u h = record { was_stopped = h.was_stopped; not_active = h.not_active }

either-IsSilent :
    (b : Bool) (c : ℕ) (x y : Bool × Uplink)
    → IsSilent c x.1
    → IsSilent c y.1
    → IsSilent c (if b then x else y).1
either-IsSilent true c x y h k = h
either-IsSilent false c x y h k = k

-- The client of the session is stopped and hears no more events, whatever others do meanwhile, a
-- session that they open included, as long as the stopping does not raise.
pub shut_down_silences :
    (persists : Bool) (meanwhile : Uplink → Uplink) (u : Uplink) (c : ℕ)
    → u.client ≡ some c
    → IsSilent c (shut_down false persists meanwhile u).1
unfolding shut_down
shut_down_silences persists meanwhile u c e =
    let after = stopping false meanwhile u.client u in
    let silent = stopping-IsSilent meanwhile u c u.client e in
    let on : (not u.enabled && is_none u.client) ≡ false = ground (arith, e) in
    rw on (
      either-IsSilent (is_same_session after u) c (true, closed persists after) (false, after)
        (closed-IsSilent persists c after silent) silent)

-- Who hears the events, and who was stopped, are as they were found.
abbrev pub Untouched : Uplink → Uplink → Type 0
Untouched met u = (u.active ≡ met.active) × (u.stopped ≡ met.stopped)

-- What a shutdown leaves of the client: silent, or, if its stopping raised, as it was found.
unfoldable pub Silenced : Bool → Option ℕ → Uplink → Uplink → Type 0
Silenced false none met u = Unit
Silenced false (some c) met u = IsSilent c u
Silenced true client met u = Untouched met u

either-Untouched :
    (b : Bool) (x y : Bool × Uplink) (met : Uplink)
    → Untouched met x.1
    → Untouched met y.1
    → Untouched met (if b then x else y).1
either-Untouched true x y met h k = h
either-Untouched false x y met h k = k

raised_same :
    (meanwhile : Uplink → Uplink) (client : Option ℕ) (u : Uplink)
    → stopping true meanwhile client u ≡ met_by meanwhile client u
unfolding stopping
raised_same meanwhile none u = refl
raised_same meanwhile (some c) u = refl

raised-Untouched :
    (persists : Bool) (meanwhile : Uplink → Uplink) (u : Uplink)
    → (not u.enabled && is_none u.client) ≡ false
    → Untouched (stopping true meanwhile u.client u) (shut_down true persists meanwhile u).1
unfolding shut_down closed
raised-Untouched persists meanwhile u on =
    let after = stopping true meanwhile u.client u in
    rw on (
      either-Untouched (is_same_session after u) (true, closed persists after) (false, after) after
        (refl, refl) (refl, refl))

silenced :
    (raises persists : Bool) (meanwhile : Uplink → Uplink) (u : Uplink) (client : Option ℕ)
    → u.client ≡ client
    → (not u.enabled && is_none u.client) ≡ false
    → Silenced raises client (met_by meanwhile client u) (shut_down raises persists meanwhile u).1
unfolding Silenced
silenced false persists meanwhile u none e on = tt
silenced false persists meanwhile u (some c) e on = shut_down_silences persists meanwhile u c e
silenced true persists meanwhile u client e on =
    let ended = (shut_down true persists meanwhile u).1 in
    subst (λ k. Untouched (met_by meanwhile k u) ended) e
      (subst (λ m. Untouched m ended) (raised_same meanwhile u.client u)
        (raised-Untouched persists meanwhile u on))

module _ (raises persists : Bool) (meanwhile : Uplink → Uplink) (u : Uplink) where
  same_session :
      (after : Uplink)
      → Agree after (met_by meanwhile u.client u)
      → is_same_session after u ≡ is_same_session (met_by meanwhile u.client u) u
  same_session after h = rw (h.stamp_agrees, h.client_agrees) refl

  ended :
      (not u.enabled && is_none u.client) ≡ false
      → Ended persists
          (met_by meanwhile u.client u)
          (shut_down raises persists meanwhile u)
          (is_same_session (met_by meanwhile u.client u) u)
  unfolding shut_down
  ended on =
      let after = stopping raises meanwhile u.client u in
      let agrees = Agree-stopping raises meanwhile u.client u in
      subst (Ended persists (met_by meanwhile u.client u) (shut_down raises persists meanwhile u))
        (same_session after agrees)
        (rw on
          (session persists after (met_by meanwhile u.client u) agrees (is_same_session after u)))

  -- A session that is on, or has a client, is closed, unless another session was opened while the
  -- client was awaited: then the answer is that it is not, and the switch, the client and
  -- config.yaml are left to that session. This holds whether or not the stopping of the client
  -- raises, and whatever others do meanwhile. In both cases the client of the session was stopped and
  -- no event goes to it any more; if its stopping raised, events go where they went, and it does not
  -- count as stopped.
  pub shut_down_exact :
      (not u.enabled && is_none u.client) ≡ false
      → Ended persists
          (met_by meanwhile u.client u)
          (shut_down raises persists meanwhile u)
          (is_same_session (met_by meanwhile u.client u) u)
        × Silenced raises u.client
            (met_by meanwhile u.client u)
            (shut_down raises persists meanwhile u).1
  shut_down_exact on = (ended on, silenced raises persists meanwhile u u.client refl on)
