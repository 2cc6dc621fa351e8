-- ===== src/Cleaner/Summary/Silence.antt =====
-- What a scan that is not reported means.
use mathlib.Core.Bool.{true≢false}
use px_smt_multirealm_shim.Common.{
  ℕ, ◌-◌, ◌<◌, ◌≡◌, ◌⊎◌, refl, subst, sym, ◌∙◌, true, false, Bool-cases, inl, inr, Option, none,
  some, List, [], ◌∷◌, ◌++◌, append-left, append_assoc, arith, ltb,
}
use px_smt_multirealm_shim.Bytes.{Bytes, codes, same, same_iff}
use px_smt_multirealm_shim.Bytes.Number.{ℤ, pos, negsuc, is_digit, decimal}
use px_smt_multirealm_shim.Bytes.Number.Digits.{decimal_injective, cut_number}
use px_smt_multirealm_shim.Cleaner.Scan.{
  Trigger, poll, volumeattachment_delete, is_event, ScanResult,
}
use px_smt_multirealm_shim.Cleaner.Summary.{
  Reporter, summary, is_due, is_news, report, Scanned, remembered,
}

unfoldable fields : ScanResult → Bytes
fields r =
    codes "pure="
    ++ (decimal r.ours
        ++ b' '
          ∷ (codes "idle="
              ++ (decimal r.idle
                  ++ b' '
                    ∷ (codes "stale="
                        ++ (decimal r.stale ++ b' ' ∷ (codes "flushed=" ++ decimal r.flushed))))))

summary-fields : (r : ScanResult) → summary r ≡ fields r
unfolding summary fields
summary-fields r = simp append_assoc

fields_injective : (r s : ScanResult) → fields r ≡ fields s → r ≡ s
unfolding fields is_digit
fields_injective r s e =
    let ours = cut_number b' ' r.ours s.ours _ _ refl (append-left (codes "pure=") e) in
    let idle = cut_number b' ' r.idle s.idle _ _ refl (append-left (codes "idle=") ours.1) in
    let stale = cut_number b' ' r.stale s.stale _ _ refl (append-left (codes "stale=") idle.1) in
    let flushed = decimal_injective r.flushed s.flushed (append-left (codes "flushed=") stale.1) in
    cc (ours.0, idle.0, stale.0, flushed)

-- Two scans with one summary found the same.
summary_injective : (r s : ScanResult) → summary r ≡ summary s → r ≡ s
summary_injective r s e = fields_injective r s (sym (summary-fields r) ∙ e ∙ summary-fields s)

-- less than a heartbeat has passed since the last line
abbrev pub IsRecent : ℤ → Option ℕ → ℕ → Type 0
IsRecent heartbeat none now = ⊥
IsRecent (negsuc _) (some t) now = ⊥
IsRecent (pos h) (some t) now = now - t < h

due-IsRecent : (h : ℤ) (last : Option ℕ) (now : ℕ) → is_due h last now ≡ false → IsRecent h last now
unfolding is_due
due-IsRecent h none now e = absurd (true≢false e)
due-IsRecent (negsuc _) (some t) now e = absurd (true≢false e)
due-IsRecent (pos h) (some t) now e = ground (arith, e)

no_news :
    (heartbeat : ℤ) (trigger : Trigger) (r : ScanResult) (now : ℕ) (rep : Reporter)
    → is_news heartbeat trigger r now rep ≡ false
    → (trigger ≡ poll)
      × (r.flushed ≡ 0)
      × (summary r ≡ rep.last_summary)
      × IsRecent heartbeat rep.last_log now
unfolding is_news is_event
no_news heartbeat volumeattachment_delete r now rep e = absurd (true≢false e)
no_news heartbeat poll r now rep e =
    let parts : (ltb 0 r.flushed ≡ false)
        × (same (summary r) rep.last_summary ≡ true)
        × (is_due heartbeat rep.last_log now ≡ false) =
      ground (arith, e) in
    (
      refl,
      ground (arith, parts.0),
      (same_iff (summary r) rep.last_summary).0 parts.1,
      due-IsRecent heartbeat rep.last_log now parts.2,
    )

-- one of these scans has the property
abbrev pub HasOne : (Scanned → Type 0) → List Scanned → Type 0
HasOne P [] = ⊥
HasOne P (s ∷ ss) = P s ⊎ HasOne P ss

HasOne-map :
    {P Q : Scanned → Type 0} (f : (s : Scanned) → P s → Q s) (ss : List Scanned)
    → HasOne P ss
    → HasOne Q ss
HasOne-map f [] h = h
HasOne-map f (s ∷ ss) (inl p) = inl (f s p)
HasOne-map f (s ∷ ss) (inr h) = inr (HasOne-map f ss h)

-- the line that the reporter remembers is that of this scan
abbrev IsOf : Reporter → Scanned → Type 0
IsOf rep s = (rep.last_summary ≡ summary s.result) × (rep.last_log ≡ some s.time)

remembered-IsOf :
    (heartbeat : ℤ) (before : List Scanned)
    → ((remembered heartbeat before).last_log ≡ none)
      ⊎ HasOne (IsOf (remembered heartbeat before)) before
unfolding remembered report
remembered-IsOf heartbeat [] = inl refl
remembered-IsOf heartbeat (s ∷ before) =
    let rep = remembered heartbeat before in
    elim (Bool-cases (is_news heartbeat s.trigger s.result s.time rep)) [
      | inl n ↦ inr (inl (rw (n, remembered, report) (refl, refl)))
      | inr n ↦ elim (remembered-IsOf heartbeat before) [
        | inl e ↦ inl (rw (n, remembered, report) e)
        | inr h ↦
            let kept : remembered heartbeat (s ∷ before) ≡ rep = rw (n, remembered, report) refl in
            inr (inr (subst (λ r. HasOne (IsOf r) before) (sym kept) h))
      ]
    ]

-- the scan found the same as this earlier one, less than a heartbeat after it
abbrev pub Repeats : ℤ → Scanned → Scanned → Type 0
Repeats heartbeat s earlier =
    (s.result ≡ earlier.result) × IsRecent heartbeat (some earlier.time) s.time

-- A scan that is not reported is a poll that flushed nothing and found what an earlier scan found, less
-- than a heartbeat before it.
pub report_silent :
    (heartbeat : ℤ) (before : List Scanned) (s : Scanned)
    → (report heartbeat s.trigger s.result s.time (remembered heartbeat before)).0 ≡ none
    → (s.trigger ≡ poll) × (s.result.flushed ≡ 0) × HasOne (Repeats heartbeat s) before
unfolding report
report_silent heartbeat before s e =
    let rep = remembered heartbeat before in
    elim (Bool-cases (is_news heartbeat s.trigger s.result s.time rep)) [
      | inl n ↦ absurd (ground (arith, rw (n, report) at e))
      | inr n ↦
          let (polled, idle, equal, recent) = no_news heartbeat s.trigger s.result s.time rep n in
          (
            polled,
            idle,
            elim (remembered-IsOf heartbeat before) [
              | inl never ↦ absurd (subst (λ l. IsRecent heartbeat l s.time) never recent)
              | inr h ↦
                  HasOne-map
                    (λ t o. (
                      summary_injective s.result t.result (equal ∙ o.0),
                      subst (λ l. IsRecent heartbeat l s.time) o.1 recent,
                    ))
                    before h
            ],
          )
    ]
