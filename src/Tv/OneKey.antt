-- ===== src/Tv/OneKey.antt =====
-- pihub/samsung_tv.py: what power_on sends, over every order of calls, workers, discovery and the websocket.
use pihub_remote_nrf.Prelude.{
  ℕ, suc, ◌≤◌, ◌<◌, String, ◌≡◌, refl, sym, ◌∙◌, ap, subst, ◌⊎◌, inl, inr, Bool, true, false, not,
  Option, none, some, List, [], ◌∷◌, ◌||◌, nat_eq, length, length-append, All, All-append, arith,
  if_split, if_cases,
}
use pihub_remote_nrf.Tv.Presence.{
  Tv, Key, Notice, msearch, ssdp, ws_changes, new_tv, is_cached, commit_presence, notify,
  notify_msearch, notify_ssdp,
}
use pihub_remote_nrf.Tv.PowerOff.{give_key}
use pihub_remote_nrf.Tv.PowerOn.{
  Power, Attempt, Begun, looking, connecting, waiting, ended, power_on, is_over, try_key, look,
  connect_ended, direct_check, stop_workers, finish, worker,
}

pub data Step : Power → Power → Type 0 where
  calls : (p : Power) → Step p (power_on p).0
  notices : (n : Notice) (p : Power) → Step p (record p { tv = notify n p.tv })
  commits :
      (on : Bool) (source : String) (p : Power)
      → Step p (record p { tv = (commit_presence on source p.tv).0 })
  socket :
      (connected : Bool) (p : Power)
      → Step p (record p { tv = record p.tv { ws_connected = connected } })
  looks :
      (a : Attempt) (p : Power) → p.attempt ≡ some a → a.key_worker ≡ looking → Step p (look a p)
  connects :
      (ok : Option Bool) (a : Attempt) (p : Power)
      → p.attempt ≡ some a
      → a.key_worker ≡ connecting
      → Step p (connect_ended ok a p)
  wakes :
      (a : Attempt) (p : Power)
      → p.attempt ≡ some a
      → a.key_worker ≡ waiting
      → Step p (worker looking a p)
  checks : (up : Bool) (a : Attempt) (p : Power) → p.attempt ≡ some a → Step p (direct_check up p)
  stops : (a : Attempt) (p : Power) → p.attempt ≡ some a → Step p (stop_workers a p)
  finishes :
      (a : Attempt) (p : Power) → p.attempt ≡ some a → a.stop_event ≡ true → Step p (finish p)

pub data Reach (p : Power) : Power → Type 0 where
  here : Reach p p
  next : {q r : Power} → Reach p q → Step q r → Reach p r

abbrev pub at_start : Power
at_start = record { tv = new_tv; attempt = none; keyed = [] }

-- Strictly falling numbers, all below this one.
abbrev pub Below : ℕ → List ℕ → Type 0
Below n [] = Unit
Below n (i ∷ is) = (i < n) × Below i is

Below-weaken : (n m : ℕ) (is : List ℕ) → n ≤ m → Below n is → Below m is
Below-weaken n m [] h b = tt
Below-weaken n m (i ∷ is) h b = (omega (arith, h, b.0), b.1)

-- A KEY_0 given while the TV is not known to be on.
abbrev pub IsWaking : Key → Type 0
IsWaking k = (k.code ≡ "KEY_0") × (is_cached true k.presence ≡ false)

abbrev IsUnderWay : Option Attempt → ℕ → List ℕ → Type 0
IsUnderWay none id keyed = Unit
IsUnderWay (some a) id keyed = (a.attempt_id ≡ id) × ((a.key_sent ≡ true) ⊎ Below id keyed)

pub record IsOnce (p : Power) : Type 0 where
  pub each_once : Below (suc p.tv.power_on_attempt_id) p.keyed
  pub all_counted : length p.tv.keys ≡ length p.keyed
  pub all_waking : All IsWaking p.tv.keys
  pub under_way : IsUnderWay p.attempt p.tv.power_on_attempt_id p.keyed

-- A step that leaves the keys and the attempts as they are.
kept :
    (tv : Tv) (p : Power)
    → tv.keys ≡ p.tv.keys
    → tv.power_on_attempt_id ≡ p.tv.power_on_attempt_id
    → IsOnce p
    → IsOnce (record p { tv = tv })
kept tv p k n v = record {
  each_once = subst (λ m. Below (suc m) p.keyed) (sym n) v.each_once;
  all_counted = ap length k ∙ v.all_counted;
  all_waking = subst (All IsWaking) (sym k) v.all_waking;
  under_way = subst (λ m. IsUnderWay p.attempt m p.keyed) (sym n) v.under_way;
}

commit-keys : (on : Bool) (source : String) (t : Tv) → (commit_presence on source t).0.keys ≡ t.keys
unfolding commit_presence
commit-keys on source t = ground arith

commit-id :
    (on : Bool) (source : String) (t : Tv)
    → (commit_presence on source t).0.power_on_attempt_id ≡ t.power_on_attempt_id
unfolding commit_presence
commit-id on source t = ground arith

notify-keys : (n : Notice) (t : Tv) → (notify n t).keys ≡ t.keys
unfolding notify notify_msearch notify_ssdp commit_presence
notify-keys (msearch location) t = ground arith
notify-keys (ssdp nts nt location) t = ground arith
notify-keys (ws_changes connected) t = refl

notify-id : (n : Notice) (t : Tv) → (notify n t).power_on_attempt_id ≡ t.power_on_attempt_id
unfolding notify notify_msearch notify_ssdp commit_presence
notify-id (msearch location) t = ground arith
notify-id (ssdp nts nt location) t = ground arith
notify-id (ws_changes connected) t = refl

-- The attempt under way, changed in what does not matter here.
moved :
    (a a' : Attempt) (p : Power)
    → p.attempt ≡ some a
    → a'.attempt_id ≡ a.attempt_id
    → a'.key_sent ≡ a.key_sent
    → IsOnce p
    → IsOnce (record p { attempt = some a' })
moved a a' p at i k v =
    let under = subst (λ o. IsUnderWay o p.tv.power_on_attempt_id p.keyed) at v.under_way in
    record {
      each_once = v.each_once;
      all_counted = v.all_counted;
      all_waking = v.all_waking;
      under_way = (i ∙ under.0, elim under.1 [ inl s ↦ inl (k ∙ s) | inr b ↦ inr b ]);
    }

-- The one key of an attempt that is not over and has given none.
sends_one :
    (a : Attempt) (p : Power)
    → p.attempt ≡ some a
    → (a.stop_event || is_cached true p.tv.presence_cached) ≡ false
    → (not (nat_eq a.attempt_id p.tv.power_on_attempt_id) || a.key_sent) ≡ false
    → IsOnce p
    → IsOnce (record p {
      tv = give_key "KEY_0" p.tv;
      attempt = some (record a { key_sent = true; key_worker = ended });
      keyed = a.attempt_id ∷ p.keyed;
    })
unfolding give_key
sends_one a p at alive unsent v =
    let under = subst (λ o. IsUnderWay o p.tv.power_on_attempt_id p.keyed) at v.under_way in
    let off : is_cached true p.tv.presence_cached ≡ false = ground (arith, alive) in
    let before : Below p.tv.power_on_attempt_id p.keyed = elim under.1 [
      | inl s ↦ absurd (ground (arith, unsent, s))
      | inr b ↦ b
    ] in
    record {
      each_once = rw under.0 (omega arith, before);
      all_counted = omega (
        arith,
        v.all_counted,
        length-append p.tv.keys (record { code = "KEY_0"; presence = p.tv.presence_cached } ∷ []),
      );
      all_waking = All-append IsWaking p.tv.keys _ v.all_waking ((refl, off), tt);
      under_way = (under.0, inl refl);
    }

try_key-IsOnce :
    (ok : Bool) (a : Attempt) (p : Power) → p.attempt ≡ some a → IsOnce p → IsOnce (try_key ok a p)
unfolding try_key is_over give_key
try_key-IsOnce ok a p at v =
    if_split IsOnce (a.stop_event || is_cached true p.tv.presence_cached)
      (λ _. moved a (record a { key_worker = ended }) p at refl refl v)
      (λ alive.
        if_split IsOnce (not ok) (λ _. moved a (record a { key_worker = waiting }) p at refl refl v)
          (λ _.
            if_split IsOnce (not (nat_eq a.attempt_id p.tv.power_on_attempt_id) || a.key_sent)
              (λ _. moved a (record a { key_worker = ended }) p at refl refl v)
              (λ fresh. sends_one a p at alive fresh v)))

look-IsOnce : (a : Attempt) (p : Power) → p.attempt ≡ some a → IsOnce p → IsOnce (look a p)
unfolding look
look-IsOnce a p at v =
    if_cases IsOnce (is_over a p.tv) (moved a (record a { key_worker = ended }) p at refl refl v) (
      if_cases IsOnce p.tv.ws_connected (try_key-IsOnce true a p at v)
        (moved a (record a { key_worker = connecting }) p at refl refl v))

connect_ended-IsOnce :
    (ok : Option Bool) (a : Attempt) (p : Power)
    → p.attempt ≡ some a
    → IsOnce p
    → IsOnce (connect_ended ok a p)
unfolding connect_ended
connect_ended-IsOnce none a p at v = moved a (record a { key_worker = waiting }) p at refl refl v
connect_ended-IsOnce (some ok) a p at v =
    try_key-IsOnce ok a (record p { tv = record p.tv { ws_connected = ok } }) at
      (kept (record p.tv { ws_connected = ok }) p refl refl v)

power_on-IsOnce : (p : Power) → IsOnce p → IsOnce (power_on p).0
unfolding power_on
power_on-IsOnce p v =
    if_cases (λ (r : Power × Begun). IsOnce r.0) (not p.tv.has_session) v
      (if_cases (λ (r : Power × Begun). IsOnce r.0) (is_cached true p.tv.presence_cached)
        (kept (record p.tv { presence_on = true }) p refl refl v)
        (if_cases (λ (r : Power × Begun). IsOnce r.0) p.tv.power_on_active v
          (record {
            each_once =
                Below-weaken (suc p.tv.power_on_attempt_id) (suc (suc p.tv.power_on_attempt_id))
                  p.keyed (omega arith) v.each_once;
            all_counted = v.all_counted;
            all_waking = v.all_waking;
            under_way = (refl, inr v.each_once);
          })))

direct_check-IsOnce : (up : Bool) (p : Power) → IsOnce p → IsOnce (direct_check up p)
unfolding direct_check
direct_check-IsOnce true p v =
    kept (commit_presence true "probe_http_up" p.tv).0 p (commit-keys true "probe_http_up" p.tv)
      (commit-id true "probe_http_up" p.tv) v
direct_check-IsOnce false p v = v

Step-IsOnce : {p q : Power} → Step p q → IsOnce p → IsOnce q
unfolding stop_workers finish
Step-IsOnce (calls p) v = power_on-IsOnce p v
Step-IsOnce (notices n p) v = kept (notify n p.tv) p (notify-keys n p.tv) (notify-id n p.tv) v
Step-IsOnce (commits on source p) v =
    kept (commit_presence on source p.tv).0 p (commit-keys on source p.tv)
      (commit-id on source p.tv) v
Step-IsOnce (socket connected p) v = kept (record p.tv { ws_connected = connected }) p refl refl v
Step-IsOnce (looks a p at w) v = look-IsOnce a p at v
Step-IsOnce (connects ok a p at w) v = connect_ended-IsOnce ok a p at v
Step-IsOnce (wakes a p at w) v = moved a (record a { key_worker = looking }) p at refl refl v
Step-IsOnce (checks up a p at) v = direct_check-IsOnce up p v
Step-IsOnce (stops a p at) v = moved a (record a { stop_event = true }) p at refl refl v
Step-IsOnce (finishes a p at w) v = record {
  each_once = v.each_once;
  all_counted = v.all_counted;
  all_waking = v.all_waking;
  under_way = tt;
}

-- In every order of calls of power_on, rounds of its key worker, probes, notices of discovery, changes of
-- presence and of the websocket from the start on, power_off apart: every key given to the TV is KEY_0 and
-- was given while the TV was not known to be on, and each attempt gave at most one.
pub keyed-IsOnce : (p : Power) → Reach at_start p → IsOnce p
keyed-IsOnce p here = record { each_once = tt; all_counted = refl; all_waking = tt; under_way = tt }
keyed-IsOnce p (next r step) = Step-IsOnce step (keyed-IsOnce _ r)
