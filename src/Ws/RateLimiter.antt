-- ===== src/Ws/RateLimiter.antt =====
-- backend/src/ws/rateLimiter.js: how many messages a user may send in a window of time.
use silent_whisper.Prelude.{
  ℕ, ◌+◌, ◌-◌, ◌≤◌, ◌≡◌, ◌<◌, sym, ◌∙◌, Bool-cases, ==_iff, inl, inr, Bool, true, false, Option,
  none, some, List, [], ◌∷◌, arith, ltb, leb, ◌==◌, if◌then◌else◌,
}
use silent_whisper.Ws.Table.{Table, get, put, get-put}

pub record Window : Type 0 where
  pub window_start : ℕ
  pub count : ℕ

-- config.ws
pub record Limits : Type 0 where
  pub message_window_ms : ℕ
  pub max_messages_per_window : ℕ

-- No window, or one that is over.
abbrev pub is_over : Limits → ℕ → Option Window → Bool
is_over l now none = true
is_over l now (some w) = ltb l.message_window_ms (now - w.window_start)

abbrev count_of : Option Window → ℕ
count_of none = 0
count_of (some w) = w.count

abbrev counted : Option Window → Window
counted none = record { window_start = 0; count = 0 }
counted (some w) = record w { count = w.count + 1 }

-- The second part tells whether the message is refused.
unfoldable pub is_message_rate_limited : Limits → ℕ → ℕ → Table Window → Table Window × Bool
is_message_rate_limited l now user_id m =
    if is_over l now (get m user_id)
    then (put m user_id (record { window_start = now; count = 1 }), false)
    else if leb l.max_messages_per_window (count_of (get m user_id))
    then (m, true)
    else (put m user_id (counted (get m user_id)), false)

-- How many messages of a user pass, in a sequence of calls with their users and times.
abbrev pub accepted : Limits → ℕ → Table Window → List (ℕ × ℕ) → ℕ
accepted l u m [] = 0
accepted l u m ((v, now) ∷ calls) =
    let (m', refused) = is_message_rate_limited l now v m in
    let rest = accepted l u m' calls in
    if u == v then (if refused then rest else rest + 1) else rest

-- All calls of a user come before the end of the window that starts at a time.
abbrev pub Within : Limits → ℕ → ℕ → List (ℕ × ℕ) → Type 0
Within l u start [] = Unit
Within l u start ((v, now) ∷ calls) =
    (u ≡ v → now - start ≤ l.message_window_ms) × Within l u start calls

-- A call of another user keeps the window.
other_call :
    (l : Limits) (u v now : ℕ) (m : Table Window)
    → (u == v) ≡ false
    → get (is_message_rate_limited l now v m).0 u ≡ get m u
unfolding is_message_rate_limited
other_call l u v now m h = ground (
  arith,
  get-put m v u (record { window_start = now; count = 1 }),
  get-put m v u (counted (get m v)),
)

-- A call within the window is refused where the window is full, and counted where it is not.
own_call_full :
    (l : Limits) (u now : ℕ) (m : Table Window) (w : Window)
    → get m u ≡ some w
    → now - w.window_start ≤ l.message_window_ms
    → l.max_messages_per_window ≤ w.count
    → is_message_rate_limited l now u m ≡ (m, true)
unfolding is_message_rate_limited
own_call_full l u now m w found inside full = ground arith

own_call_counted :
    (l : Limits) (u now : ℕ) (m : Table Window) (w : Window)
    → get m u ≡ some w
    → now - w.window_start ≤ l.message_window_ms
    → w.count < l.max_messages_per_window
    → ((is_message_rate_limited l now u m).1 ≡ false)
      × (get (is_message_rate_limited l now u m).0 u ≡ some (record w { count = w.count + 1 }))
unfolding is_message_rate_limited
own_call_counted l u now m w found inside free =
    (ground arith, ground (arith, get-put m u u (counted (get m u))))

window_is_kept :
    (l : Limits) (u : ℕ) (m : Table Window) (w : Window) (calls : List (ℕ × ℕ))
    → get m u ≡ some w
    → w.count ≤ l.max_messages_per_window
    → Within l u w.window_start calls
    → accepted l u m calls + w.count ≤ l.max_messages_per_window
window_is_kept l u m w [] found h inside = omega arith
window_is_kept l u m w ((v, now) ∷ calls) found h (inside, later) = elim (Bool-cases (u == v)) [
  | inr other ↦
      let ih =
        window_is_kept l u (is_message_rate_limited l now v m).0 w calls
          (other_call l u v now m other ∙ found) h later in
      ground (arith, ih)
  | inl own ↦
      let same : v ≡ u = sym ((==_iff u v).0 own) in
      elim (Bool-cases (ltb w.count l.max_messages_per_window)) [
        | inl free ↦
            let (passed, counted_one) =
              own_call_counted l u now m w found (inside (sym same)) (ground arith) in
            let ih =
              window_is_kept l u (is_message_rate_limited l now u m).0
                (record w { count = w.count + 1 }) calls counted_one (ground arith) later in
            rw same (ground (arith, ih, passed))
        | inr full ↦
            let refused = own_call_full l u now m w found (inside (sym same)) (ground arith) in
            let ih = window_is_kept l u m w calls found h later in
            rw (same, refused) (ground (arith, ih))
      ]
]

-- When a call of a user starts a new window, that call and all calls in any order with those of
-- other users, as long as the user's own come before the end of the window, let at most the
-- configured number of the user's messages pass, a number that is not 0.
pub window_lets_at_most :
    (l : Limits) (u now : ℕ) (m : Table Window) (calls : List (ℕ × ℕ))
    → is_over l now (get m u) ≡ true
    → 1 ≤ l.max_messages_per_window
    → Within l u now calls
    → accepted l u m ((u, now) ∷ calls) ≤ l.max_messages_per_window
unfolding is_message_rate_limited
window_lets_at_most l u now m calls over some_pass inside =
    let w : Window = record { window_start = now; count = 1 } in
    ground (arith, window_is_kept l u (put m u w) w calls, get-put m u u w)
