-- ===== src/AudioPro/Hints.antt =====
-- pihub/audiopro_speaker.py: a hint is answered by a request for the full status, and in time.
use pihub_remote_nrf.Prelude.{
  ℕ, ◌+◌, ◌≤◌, ◌≡◌, refl, Bool, true, false, Option, none, some, List, [], ◌∷◌, ◌&&◌, arith, ltb,
  leb, is_some, not, if_split, All, if◌then◌else◌,
}
use pihub_remote_nrf.AudioPro.Asking.{
  pinfget_min_gap, Task, waiting, sending, ended, Asking, max, is_running, request_pinfget,
  after_result, clear_pending_pinfget, clear_replaced, ask, look, sent, Event, hint, time_passes,
  looks, send_ends, calls_back, calls_back_replaced, refreshed, cancels, starts, stops, step, run,
}

-- The link holds: no request is cancelled, none fails, and the driver is not stopped.
abbrev pub holds_link : Event → Bool
holds_link (send_ends raised) = not raised
holds_link cancels = false
holds_link stops = false
holds_link _ = true

-- A request is on its way.
abbrev pub is_asked : Option Task → Bool
is_asked (some (ended raised)) = not raised
is_asked (some _) = true
is_asked none = false

-- The hint of the moment h is answered, or will be.
pub data Answered (h last_pinfget last_hint : ℕ) (task : Option Task) : Type 0 where
  asked_since : h ≤ last_pinfget → Answered h last_pinfget last_hint task
  to_ask : h ≤ last_hint → is_asked task ≡ true → Answered h last_pinfget last_hint task

record Kept (h : ℕ) (s : Asking) : Type 0 where
  on : s.enabled ≡ true
  past : h ≤ s.now
  answered : Answered h s.last_pinfget s.last_hint s.pending_task

running-is_asked : (p : Option Task) → is_running p ≡ true → is_asked p ≡ true
running-is_asked (some waiting) h = refl
running-is_asked (some sending) h = refl
running-is_asked (some (ended raised)) h = absurd (cc)
running-is_asked none h = absurd (cc)

request-Kept : (h d : ℕ) (s : Asking) → s.enabled ≡ true → h ≤ s.now → Kept h (request_pinfget d s)
unfolding request_pinfget
request-Kept h d s on past =
    if_split (Kept h) s.enabled
      (λ _.
        if_split (Kept h) (is_running s.pending_task)
          (λ running. record {
            on = on;
            past = past;
            answered = to_ask past (running-is_asked s.pending_task running);
          })
          (λ _. record { on = on; past = past; answered = to_ask past refl }))
      (λ off. absurd (cc))

after_result-Kept : (h : ℕ) (raised : Bool) (s : Asking) → Kept h s → Kept h (after_result raised s)
unfolding after_result
after_result-Kept h true s k = k
after_result-Kept h false s k =
    if_split (Kept h) (ltb s.last_pinfget s.last_hint && not (is_some s.pending_task))
      (λ _. request-Kept h 0 s k.on k.past) (λ _. k)

clear-Kept : (h : ℕ) (s : Asking) → Kept h s → Kept h (clear_pending_pinfget s)
unfolding clear_pending_pinfget after_result
clear-Kept h s k = by_task s.pending_task k.answered
  where
    by_task :
        (p : Option Task)
        → Answered h s.last_pinfget s.last_hint p
        → Kept h (elim p as (λ _. Asking) [
          | some (ended raised) ↦ after_result raised (record s { pending_task = none })
          | _ ↦ s
        ])
    by_task none a = k
    by_task (some waiting) a = k
    by_task (some sending) a = k
    by_task (some (ended raised)) (asked_since le) =
        after_result-Kept h raised (record s { pending_task = none })
          (record { on = k.on; past = k.past; answered = asked_since le })
    by_task (some (ended true)) (to_ask le a) = absurd (cc)
    by_task (some (ended false)) (to_ask le a) =
        if_split (Kept h) (ltb s.last_pinfget s.last_hint && true)
          (λ _. request-Kept h 0 (record s { pending_task = none }) k.on k.past)
          (λ quiet. record {
            on = k.on;
            past = k.past;
            answered = asked_since (ground (arith, le, quiet));
          })

clear_replaced-Kept : (h : ℕ) (s : Asking) → Kept h s → Kept h (clear_replaced s)
unfolding clear_replaced
clear_replaced-Kept h s k =
    elim s.replaced
      as (λ bs. Kept h (elim bs as (λ _. Asking) [
        | [] ↦ s
        | raised ∷ later ↦ after_result raised (record s { replaced = later })
      ])) [
        | [] ↦ k
        | raised ∷ bs ↦
            after_result-Kept h raised (record s { replaced = bs })
              (record { on = k.on; past = k.past; answered = k.answered })
      ]

look-Kept : (h : ℕ) (s : Asking) → Kept h s → Kept h (look s)
unfolding look
look-Kept h s k = by_task s.pending_task
  where
    by_task :
        (p : Option Task)
        → Kept h (elim p as (λ _. Asking) [
          | some waiting ↦
              if leb (max s.due (s.last_pinfget + pinfget_min_gap)) s.now
              then if s.enabled then ask s else record s { pending_task = some (ended false) }
              else s
          | _ ↦ s
        ])
    by_task none = k
    by_task (some sending) = k
    by_task (some (ended raised)) = k
    by_task (some waiting) =
        if_split (Kept h) (leb (max s.due (s.last_pinfget + pinfget_min_gap)) s.now)
          (λ _.
            if_split (Kept h) s.enabled
              (λ _. record { on = k.on; past = k.past; answered = asked_since k.past })
              (λ off. absurd (ground (arith, k.on, off))))
          (λ _. k)

still_asked :
    (h : ℕ) (s : Asking) (p : Option Task)
    → is_asked p ≡ true
    → Answered h s.last_pinfget s.last_hint s.pending_task
    → Answered h s.last_pinfget s.last_hint p
still_asked h s p a (asked_since le) = asked_since le
still_asked h s p a (to_ask le _) = to_ask le a

sent-Kept : (h : ℕ) (s : Asking) → Kept h s → Kept h (sent false s)
unfolding sent
sent-Kept h s k =
    elim s.pending_task
      as (λ p. Kept h (elim p as (λ _. Asking) [
        | some sending ↦ record s { pending_task = some (ended false) }
        | _ ↦ s
      ])) [
        | some sending ↦ record {
          on = k.on;
          past = k.past;
          answered = still_asked h s (some (ended false)) refl k.answered;
        }
        | none ↦ k
        | some waiting ↦ k
        | some (ended raised) ↦ k
      ]

step-Kept : (h : ℕ) (e : Event) (s : Asking) → holds_link e ≡ true → Kept h s → Kept h (step e s)
unfolding step
step-Kept h (hint d) s q k = request-Kept h d s k.on k.past
step-Kept h (time_passes d) s q k = record {
  on = k.on;
  past = omega (arith, k.past);
  answered = k.answered;
}
step-Kept h looks s q k = look-Kept h s k
step-Kept h (send_ends true) s q k = absurd (cc)
step-Kept h (send_ends false) s q k = sent-Kept h s k
step-Kept h calls_back s q k = clear-Kept h s k
step-Kept h calls_back_replaced s q k = clear_replaced-Kept h s k
step-Kept h refreshed s q k = record { on = k.on; past = k.past; answered = asked_since k.past }
step-Kept h cancels s q k = absurd (cc)
step-Kept h starts s q k = record { on = refl; past = k.past; answered = k.answered }
step-Kept h stops s q k = absurd (cc)

run-Kept :
    (h : ℕ) (es : List Event) (s : Asking)
    → All (λ e. holds_link e ≡ true) es
    → Kept h s
    → Kept h (run es s)
unfolding run
run-Kept h [] s q k = k
run-Kept h (e ∷ es) s q k = run-Kept h es (step e s) q.1 (step-Kept h e s q.0 k)

-- A hint at a moment when the driver is enabled is not lost: after any events in which no request is cancelled
-- or fails and the driver is not stopped, the full status has been asked for since that moment, or the hint is
-- recorded and a request is on its way (waiting, being sent, or sent with its callback still to come).
pub hint-Answered :
    (d : ℕ) (es : List Event) (s : Asking)
    → s.enabled ≡ true
    → All (λ e. holds_link e ≡ true) es
    → Answered s.now
        (run es (request_pinfget d s)).last_pinfget
        (run es (request_pinfget d s)).last_hint
        (run es (request_pinfget d s)).pending_task
hint-Answered d es s on q =
    (run-Kept s.now es (request_pinfget d s) q (request-Kept s.now d s on (omega arith))).answered
