-- ===== src/Worker/Monitor/Gate.antt =====
-- The image scanning gate, over all the answers that ECR may give.
use deploy_hub.Prelude.{
  ℕ, zero, suc, ◌+◌, ◌<◌, String, ltb, ◌≡◌, refl, ap, ◌∙◌, subst, ◌↔◌, true, false, some, arith,
  Bool-cases, inl, inr,
}
use deploy_hub.Action.{ok, Result}
use deploy_hub.Text.{after_first, after_last, before_last}
use deploy_hub.Worker.Monitor.{
  Scan, ScanStatus, complete, in_progress, is_unsettled, scan_from, judge, judge_result, gate_of,
  scan_gate,
}

-- ECR answers that the scan is going on.
pub record StillScanning (r : Result Scan) : Type 0 where
  pub scan : Scan
  pub answer : r ≡ ok scan
  pub unsettled : is_unsettled scan.status ≡ true

-- The loop stops at the first answer that is settled.
scan_from-first :
    (scans : ℕ → Result Scan) (i left n : ℕ) (s r : Scan)
    → is_unsettled s.status ≡ true
    → i < left
    → ((j : ℕ) → j < i → StillScanning (scans (n + j)))
    → scans (n + i) ≡ ok r
    → is_unsettled r.status ≡ false
    → scan_from scans left n s ≡ ok r
unfolding scan_from
scan_from-first scans i zero n s r u lt early found settled = absurd (omega arith)
scan_from-first scans zero (suc left) n s r u lt early found settled =
    rw (u, scan_from) (rw (shift, scan_from) (done left))
  where
    shift : scans n ≡ ok r
    shift = ap scans (omega arith) ∙ found

    done : (m : ℕ) → scan_from scans m (suc n) r ≡ ok r
    done zero = refl
    done (suc m) = rw (settled, scan_from)
scan_from-first scans (suc i) (suc left) n s r u lt early found settled =
    rw (u, scan_from)
      (rw (here, scan_from)
        (scan_from-first scans i left (suc n) now.scan r now.unsettled (omega arith) later there
          settled))
  where
    now : StillScanning (scans (n + 0))
    now = early 0 (omega arith)

    here : scans n ≡ ok now.scan
    here = ap scans (omega arith) ∙ now.answer

    there : scans (suc n + i) ≡ ok r
    there = ap scans (omega arith) ∙ found

    later : (j : ℕ) → j < i → StillScanning (scans (suc n + j))
    later j lt = subst (λ m. StillScanning (scans m)) (omega arith) (early (suc j) (omega arith))

-- While every answer is unsettled the loop uses up its attempts and ends with an unsettled answer.
scan_from-unsettled :
    (scans : ℕ → Result Scan) (left n : ℕ) (s : Scan)
    → is_unsettled s.status ≡ true
    → ((j : ℕ) → j < left → StillScanning (scans (n + j)))
    → StillScanning (scan_from scans left n s)
unfolding scan_from
scan_from-unsettled scans zero n s u early = record { scan = s; answer = refl; unsettled = u }
scan_from-unsettled scans (suc left) n s u early =
    rw (u, scan_from)
      (rw (here, scan_from) (scan_from-unsettled scans left (suc n) now.scan now.unsettled later))
  where
    now : StillScanning (scans (n + 0))
    now = early 0 (omega arith)

    here : scans n ≡ ok now.scan
    here = ap scans (omega arith) ∙ now.answer

    later : (j : ℕ) → j < left → StillScanning (scans (suc n + j))
    later j lt = subst (λ m. StillScanning (scans m)) (omega arith) (early (suc j) (omega arith))

-- The image's name has a tag, and a registry before its repository.
pub record HasRepository (image : String) : Type 0 where
  pub tag : String
  pub tagged : after_last b':' image ≡ some tag
  pub repository : String
  pub hosted : after_first b'/' (before_last b':' image) ≡ some repository

pub record IsVulnerable (s : Scan) : Type 0 where
  pub completed : s.status ≡ complete
  pub found : 0 < s.findings

judge_allows : (s : Scan) (t : ScanStatus) → s.status ≡ t → ¬ IsVulnerable s → judge s ≡ ok tt
unfolding judge
judge_allows s complete c h = elim (Bool-cases (ltb 0 s.findings)) [
  | inl e ↦ absurd (h (record { completed = c; found = ground arith }))
  | inr e ↦ ground arith
]
judge_allows s _ c h = rw (c, judge)

judge_exact : (s : Scan) → (judge s ≡ ok tt) ↔ (¬ IsVulnerable s)
judge_exact s = (λ e v. unfold judge in ground arith, judge_allows s s.status refl)

-- `scan_status` before the first answer.
abbrev unscanned : Scan
unscanned = record { status = in_progress; findings = 0 }

-- The first answer of ECR that is settled, if it is among the first twelve, decides: the gate lets
-- the image through exactly if that answer is not a completed scan with findings.
scan_gate-first :
    (image : String) (scans : ℕ → Result Scan) (i : ℕ) (r : Scan)
    → HasRepository image
    → i < 12
    → ((j : ℕ) → j < i → StillScanning (scans j))
    → scans i ≡ ok r
    → is_unsettled r.status ≡ false
    → (scan_gate image scans ≡ ok tt) ↔ (¬ IsVulnerable r)
unfolding scan_gate gate_of judge_result
scan_gate-first image scans i r name lt early found settled =
    rw (name.tagged, gate_of)
      (rw (name.hosted, gate_of) (rw (decided, judge_result) (judge_exact r)))
  where
    decided : scan_from scans 12 0 unscanned ≡ ok r
    decided =
        scan_from-first scans i 12 0 unscanned r refl lt
          (λ j l. subst (λ m. StillScanning (scans m)) (omega arith) (early j l))
          (ap scans (omega arith) ∙ found) settled

-- A scan that is still going on after twelve answers does not stop the image: the gate is open.
pub scan_gate_open :
    (image : String) (scans : ℕ → Result Scan)
    → HasRepository image
    → ((j : ℕ) → j < 12 → StillScanning (scans j))
    → scan_gate image scans ≡ ok tt
unfolding scan_gate gate_of judge_result judge
scan_gate_open image scans name early =
    rw (name.tagged, gate_of)
      (rw (name.hosted, gate_of) (rw (last.answer, judge_result) (ground (arith, last.unsettled))))
  where
    last : StillScanning (scan_from scans 12 0 unscanned)
    last =
        scan_from-unsettled scans 12 0 unscanned refl
          (λ j l. subst (λ m. StillScanning (scans m)) (omega arith) (early j l))
