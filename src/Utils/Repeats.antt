-- ===== src/Utils/Repeats.antt =====
-- That an alert is not sent again within ten minutes.
use mt5_connector.Common.{
  All, Bool, List, String, [], arith, false, if-cases, if◌then◌else◌, is_some, lt→ltb, nat_eq, not,
  some, string_eq, true, ℕ, ◌+◌, ◌<◌, ◌∷◌, ◌≡◌, ◌≤◌,
}
use mt5_connector.Common.Dict.{Dict, insert, lookup, lookup-insert, lookup-insert_self}
use mt5_connector.Utils.Alerts.{Telegram, dedupe, is_enabled, is_recent, notify, still_recent}

lookup-keep :
    (now : ℕ) (text : String) (recent : Dict String ℕ) (sent_at : ℕ)
    → lookup text recent ≡ some sent_at
    → is_recent now sent_at ≡ true
    → lookup text (still_recent now recent) ≡ some sent_at
lookup-keep now text [] sent_at found young = ground arith
lookup-keep now text ((other, since) ∷ recent) sent_at found young =
    ground (arith, lookup-keep now text recent sent_at)

-- The calls of `notify` in order, each with its time.
abbrev pub notify_all : List (ℕ × String) → Telegram → Telegram
notify_all [] t = t
notify_all ((now, text) ∷ calls) t = notify_all calls (notify now text t).0

-- The text was sent at that time or after it.
abbrev pub IsHeld : ℕ → String → Telegram → Type 0
IsHeld first text t = (sent_at : ℕ) × (lookup text t.recent ≡ some sent_at) × (first ≤ sent_at)

notify-IsHeld :
    (first now : ℕ) (text other : String) (t : Telegram)
    → now < first + dedupe
    → IsHeld first text t
    → IsHeld first text (notify now other t).0
unfolding notify
notify-IsHeld first now text other t soon (sent_at, found, later) =
    let still = still_recent now t.recent in
    let kept_at : lookup text still ≡ some sent_at =
      lookup-keep now text t.recent sent_at found (lt→ltb now (sent_at + dedupe) (omega arith)) in
    if-cases (λ (r : Telegram × Bool). IsHeld first text r.0) (not (is_enabled t)) (t, false)
      (if is_some (lookup other still)
        then (record t { recent = still }, false)
        else (record t { recent = insert other now still }, true))
      (λ off. (sent_at, found, later))
      (λ on.
        if-cases (λ (r : Telegram × Bool). IsHeld first text r.0) (is_some (lookup other still))
          (record t { recent = still }, false) (record t { recent = insert other now still }, true)
          (λ known. (sent_at, kept_at, later))
          (λ unknown. (
            sent_at,
            ground (arith, lookup-insert text other now still, string_eq.equal_iff text other),
            later,
          )))

notify_all-IsHeld :
    (first : ℕ) (text : String) (calls : List (ℕ × String)) (t : Telegram)
    → All (λ call. call.0 < first + dedupe) calls
    → IsHeld first text t
    → IsHeld first text (notify_all calls t)
notify_all-IsHeld first text [] t soon held = held
notify_all-IsHeld first text ((now, other) ∷ calls) t (here, rest) held =
    notify_all-IsHeld first text calls (notify now other t).0 rest
      (notify-IsHeld first now text other t here held)

-- A text that was sent is not sent again within ten minutes, whatever is notified in between.
notify_once :
    (first later : ℕ) (text : String) (calls : List (ℕ × String)) (t : Telegram)
    → (notify first text t).1 ≡ true
    → All (λ call. call.0 < first + dedupe) calls
    → later < first + dedupe
    → (notify later text (notify_all calls (notify first text t).0)).1 ≡ false
unfolding notify
notify_once first later text calls t sent soon near =
    let (sent_at, found, after_) =
      notify_all-IsHeld first text calls (notify first text t).0 soon (first_held sent) in
    let t' = notify_all calls (notify first text t).0 in
    let young =
      lookup-keep later text t'.recent sent_at found
        (lt→ltb later (sent_at + dedupe) (omega arith)) in
    ground (arith, young)
  where
    first_held : (notify first text t).1 ≡ true → IsHeld first text (notify first text t).0
    first_held yes_ = (
      first,
      ground (arith, lookup-insert_self text first (still_recent first t.recent)),
      omega arith,
    )
