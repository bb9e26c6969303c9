-- ===== src/Client/Flood.antt =====
-- src/client.c: `client_flood_ok`, the limit of messages in a window of time.
use sekur_ircd.Base.{
  ℕ, suc, ◌+◌, ◌-◌, ◌<◌, ◌≡◌, ◌≢◌, refl, Bool, true, false, ◌||◌, List, [], ◌∷◌, leb, ◌==◌,
  if◌then◌else◌, All, length, arith,
}

pub record Flood : Type 0 where
  pub window_start : ℕ
  pub count : ℕ

-- The window's length is in whole seconds, rounded up, as the clock's are.
unfoldable pub open_window : ℕ → ℕ → Flood → Flood
open_window window now f =
    if f.window_start == 0 || leb (f.window_start + window) now
    then record { window_start = now; count = 0 }
    else f

unfoldable pub client_flood_ok : ℕ → ℕ → ℕ → Flood → Bool × Flood
unfolding open_window
client_flood_ok max_msgs window now f =
    let g = open_window window now f in
    (leb (g.count + 1) max_msgs, record g { count = g.count + 1 })

-- How many of the messages at these times are let through.
abbrev pub admitted : ℕ → ℕ → Flood → List ℕ → ℕ
admitted max_msgs window f [] = 0
admitted max_msgs window f (now ∷ times) =
    let (ok, g) = client_flood_ok max_msgs window now f in
    (if ok then 1 else 0) + admitted max_msgs window g times

abbrev pub Within : ℕ → ℕ → ℕ → Type 0
Within start window now = now < start + window

abbrev at_most : ℕ → ℕ → ℕ
at_most n m = if leb n m then n else m

same_window :
    (window now : ℕ) (f : Flood)
    → f.window_start ≢ 0
    → Within f.window_start window now
    → open_window window now f ≡ f
unfolding open_window
same_window window now f h l = rw (closed f.window_start h l) refl
  where
    closed : (s : ℕ) → s ≢ 0 → now < s + window → (s == 0 || leb (s + window) now) ≡ false
    closed s h' l' = ground (arith, h', l')

in_window :
    (max_msgs window : ℕ) (f : Flood) (times : List ℕ)
    → f.window_start ≢ 0
    → All (Within f.window_start window) times
    → admitted max_msgs window f times ≡ at_most (length times) (max_msgs - f.count)
unfolding client_flood_ok
in_window max_msgs window f [] h a = ground arith
in_window max_msgs window f (now ∷ times) h (l, a) = rw (same_window window now f h l) (
    counts (length times) _
      (in_window max_msgs window (record f { count = f.count + 1 }) times h a))
  where
    counts :
        (n rest : ℕ)
        → rest ≡ at_most n (max_msgs - (f.count + 1))
        → (if leb (f.count + 1) max_msgs then 1 else 0) + rest
          ≡ at_most (suc n) (max_msgs - f.count)
    counts n rest e = ground (arith, e)

-- Of the messages from the one that opens a window on, as long as the window lasts, exactly the first
-- `max_msgs` are let through, whatever was counted before.
pub admitted-window :
    (max_msgs window start : ℕ) (f : Flood) (times : List ℕ)
    → 0 < start
    → 0 < window
    → (f.window_start == 0 || leb (f.window_start + window) start) ≡ true
    → All (Within start window) times
    → admitted max_msgs window f (start ∷ times) ≡ at_most (suc (length times)) max_msgs
unfolding client_flood_ok open_window
admitted-window max_msgs window start f times p w o a = rw o (
    counts (length times) _ (
      in_window max_msgs window (record { window_start = start; count = 1 }) times
        (λ e. absurd (omega (arith, e, p))) a))
  where
    counts :
        (n rest : ℕ)
        → rest ≡ at_most n (max_msgs - 1)
        → (if leb 1 max_msgs then 1 else 0) + rest ≡ at_most (suc n) max_msgs
    counts n rest e = ground (arith, e)
