-- ===== src/AudioPro/Signals.antt =====
-- pihub/audiopro_speaker.py: when a payload of the speaker sends a listen signal.
use mathlib.Core.List.{append-nil}
use text.Mathlib.Text.{starts_with}
use pihub_remote_nrf.Prelude.{
  ℕ, String, ◌≡◌, refl, sym, Bool, true, false, not, Option, none, some, List, [], ◌∷◌, ◌++◌, ◌==◌,
  ◌&&◌, ◌||◌, arith, ltb, if_cases, if_split, if◌then◌else◌,
}
use pihub_remote_nrf.Prelude.Int.{ℤ, parse_int}
use pihub_remote_nrf.Prelude.Json.{Value, Fields}
use pihub_remote_nrf.Prelude.Text.{strip, without_end, zfill, all_digits, is_empty}
use pihub_remote_nrf.InitialStatus.{mark_received}
use pihub_remote_nrf.AudioPro.Asking.{pinfget_hint_delay, ply_hint_delay}
use pihub_remote_nrf.AudioPro.State.{
  Signal, Speaker, Updates, listen_active, listening, emit_listen_edge, apply_updates, update_state,
  or_keep, no_updates,
}
use pihub_remote_nrf.AudioPro.Payloads.{
  code_of, hinted, handle_vol, handle_plm, handle_ply, handle_pms, handle_pow, handle_pst,
  handle_slv, set_powered, count_of, request_host_refresh, Info, set_guest, take_info, plm_updates,
  plm_to_source, info_source, is_guest, info_updates, parse_ply_inf_json, handle_ply_inf,
  on_payload,
}

-- The signals of one change: by whether the first reading is settled and whether it was listening before, and by
-- the source and the playback after it.
abbrev pub edge : Bool → Bool → Option String → Option String → List Signal
edge settled before source status =
    if settled && not before && listen_active source status
    then record { source = source; playback_status = status } ∷ []
    else []

abbrev pub Edge : Speaker → Speaker → Type 0
Edge s s' =
    s'.signals
    ≡ s.signals
      ++ edge s.initial.settled (listening s.state) s'.state.source s'.state.playback_status

-- What the signals depend on is the same.
record Same (s s' : Speaker) : Type 0 where
  signals : s'.signals ≡ s.signals
  source : s'.state.source ≡ s.state.source
  status : s'.state.playback_status ≡ s.state.playback_status

Same-refl : (s : Speaker) → Same s s
Same-refl s = record { signals = refl; source = refl; status = refl }

no_edge :
    (settled : Bool) (source status : Option String)
    → edge settled (listen_active source status) source status ≡ []
no_edge settled source status = ground arith

Same-Edge : (s s' : Speaker) → Same s s' → Edge s s'
unfolding listening
Same-Edge s s' h =
    rw
      (
        h.signals,
        h.source,
        h.status,
        no_edge s.initial.settled s.state.source s.state.playback_status,
      )
      (sym (append-nil s.signals))

Edge-Same : (s s' s'' : Speaker) → Edge s s' → Same s' s'' → Edge s s''
Edge-Same s s' s'' e h = rw (h.signals, h.source, h.status) e

no_edge_where :
    (settled before : Bool) (source status : Option String)
    → settled && not before && listen_active source status ≡ false
    → edge settled before source status ≡ []
no_edge_where settled before source status h = rw h refl

edge_where :
    (settled before : Bool) (source status : Option String)
    → settled && not before && listen_active source status ≡ true
    → edge settled before source status ≡ record { source = source; playback_status = status } ∷ []
edge_where settled before source status h = rw h refl

unsettled : (b c d : Bool) → not b ≡ true → b && c && d ≡ false
unsettled true c d h = absurd (cc)
unsettled false c d h = refl

settled_both : (b c d : Bool) → not b ≡ false → c && d ≡ true → b && c && d ≡ true
settled_both true c d h e = e
settled_both false c d h e = absurd (cc)

settled_not : (b c d : Bool) → c && d ≡ false → b && c && d ≡ false
settled_not true c d e = e
settled_not false c d e = refl

emit-Edge :
    (old : Bool) (t : Speaker)
    → (emit_listen_edge old t).signals
      ≡ t.signals
        ++ edge t.initial.settled old
            (emit_listen_edge old t).state.source
            (emit_listen_edge old t).state.playback_status
unfolding emit_listen_edge listening
emit-Edge old t =
    let settled = t.initial.settled in
    let source = t.state.source in
    let status = t.state.playback_status in
    if_split
      (λ (x : Speaker).
        x.signals ≡ t.signals ++ edge settled old x.state.source x.state.playback_status)
      (not settled)
      (λ h.
        rw
          (no_edge_where settled old source status
            (unsettled settled (not old) (listen_active source status) h))
          (sym (append-nil t.signals)))
      (λ on.
        if_split
          (λ (x : Speaker).
            x.signals ≡ t.signals ++ edge settled old x.state.source x.state.playback_status)
          (not old && listening t.state)
          (λ h.
            rw
              (edge_where settled old source status
                (settled_both settled (not old) (listen_active source status) on h))
              refl)
          (λ h.
            rw
              (no_edge_where settled old source status
                (settled_not settled (not old) (listen_active source status) h))
              (sym (append-nil t.signals))))

apply_updates-Edge : (u : Updates) (s : Speaker) → Edge s (apply_updates u s)
unfolding apply_updates
apply_updates-Edge u s = emit-Edge (listening s.state) (record s { state = update_state u s.state })

hinted-Edge : (d : ℕ) (s t : Speaker) → Edge s t → Edge s (hinted d t)
hinted-Edge d s t e =
    Edge-Same s t (hinted d t) e (record { signals = refl; source = refl; status = refl })

quiet-Edge :
    (s t : Speaker)
    → t.signals ≡ s.signals
    → t.state.source ≡ s.state.source
    → t.state.playback_status ≡ s.state.playback_status
    → Edge s t
quiet-Edge s t a b c = Same-Edge s t (record { signals = a; source = b; status = c })

handle_vol-Edge : (p : String) (s : Speaker) → Edge s (handle_vol p s)
unfolding handle_vol
handle_vol-Edge p s = by_number (parse_int (code_of p))
  where
    by_number :
        (o : Option ℤ)
        → Edge s (elim o as (λ _. Speaker) [
          | none ↦ s
          | some vol ↦ apply_updates (record no_updates { volume_pct = some vol }) s
        ])
    by_number none = Same-Edge s s (Same-refl s)
    by_number (some vol) = apply_updates-Edge (record no_updates { volume_pct = some vol }) s

handle_plm-Edge : (p : String) (s : Speaker) → Edge s (handle_plm p s)
unfolding handle_plm
handle_plm-Edge p s =
    let u = plm_updates (or_keep (plm_to_source (zfill 3 (strip (code_of p)))) "unknown") in
    hinted-Edge pinfget_hint_delay s (apply_updates u s) (apply_updates-Edge u s)

handle_ply-Edge : (p : String) (s : Speaker) → Edge s (handle_ply p s)
unfolding handle_ply
handle_ply-Edge p s =
    if_cases (Edge s) (strip (code_of p) == "000" || strip (code_of p) == "001")
      (hinted-Edge ply_hint_delay s s (Same-Edge s s (Same-refl s))) (Same-Edge s s (Same-refl s))

powered-Edge : (on : Bool) (s : Speaker) → Edge s (set_powered on s)
powered-Edge on s = quiet-Edge s (set_powered on s) refl refl refl

handle_pms-Edge : (p : String) (s : Speaker) → Edge s (handle_pms p s)
unfolding handle_pms
handle_pms-Edge p s =
    let woken = if code_of p == "000" then set_powered true s else s in
    let edge =
      if_cases (Edge s) (code_of p == "000") (powered-Edge true s) (Same-Edge s s (Same-refl s)) in
    if_cases (Edge s) (code_of p == "000" || code_of p == "001")
      (hinted-Edge pinfget_hint_delay s woken edge) edge

handle_pow-Edge : (p : String) (s : Speaker) → Edge s (handle_pow p s)
unfolding handle_pow
handle_pow-Edge p s =
    if_cases (Edge s) (strip (code_of p) == "001") (powered-Edge false s)
      (Same-Edge s s (Same-refl s))

handle_pst-Edge : (p : String) (s : Speaker) → Edge s (handle_pst p s)
unfolding handle_pst
handle_pst-Edge p s =
    if_cases (Edge s) (strip (code_of p) == "000" || strip (code_of p) == "001")
      (powered-Edge true s)
      (if_cases (Edge s) (strip (code_of p) == "003") (powered-Edge false s)
        (Same-Edge s s (Same-refl s)))

handle_slv-Edge : (p : String) (s : Speaker) → Edge s (handle_slv p s)
unfolding handle_slv
handle_slv-Edge p s =
    let code = strip (code_of p) in
    if_cases (Edge s) (not (is_empty code) && all_digits code)
      (by_count (count_of (parse_int code)))
      (if_cases (Edge s) (code == "NOT")
        (quiet-Edge s (record s { state = record s.state { multiroom_host_ip = none } }) refl refl
          refl)
        (Same-Edge s s (Same-refl s)))
  where
    by_count :
        (o : Option ℕ)
        → Edge s (elim o as (λ _. Speaker) [
          | none ↦ s
          | some n ↦ record s {
            state = record s.state { multiroom_slave_count = n; multiroom_host_active = ltb 0 n };
          }
        ])
    by_count none = Same-Edge s s (Same-refl s)
    by_count (some n) =
        quiet-Edge s
          (record s {
            state = record s.state { multiroom_slave_count = n; multiroom_host_active = ltb 0 n };
          })
          refl refl refl

request_host-Same : (s t : Speaker) → Same s t → Same s (request_host_refresh t)
unfolding request_host_refresh
request_host-Same s t h = if_cases (Same s) (not t.asking.enabled) h (by_known t.known_speaker_ips)
  where
    by_known :
        (ips : List String)
        → Same s (elim ips as (λ _. Speaker) [
          | [] ↦ t
          | _ ↦
              if not t.state.multiroom_guest_active || t.host_ip_pending
              then t
              else record t { host_ip_pending = true }
        ])
    by_known [] = h
    by_known (ip ∷ ips) =
        if_cases (Same s) (not t.state.multiroom_guest_active || t.host_ip_pending) h
          (record { signals = h.signals; source = h.source; status = h.status })

set_guest-Same : (guest : Bool) (s : Speaker) → Same s (set_guest guest s)
unfolding set_guest
set_guest-Same guest s =
    let changed = record s { state = record s.state { multiroom_guest_active = guest } } in
    if_cases (Same s) guest
      (if_cases (Same s) s.state.multiroom_guest_active (Same-refl s)
        (request_host-Same s changed (record { signals = refl; source = refl; status = refl })))
      (if_cases (Same s) s.state.multiroom_guest_active
        (record { signals = refl; source = refl; status = refl }) (Same-refl s))

take_info-Edge : (info : Info) (s : Speaker) → Edge s (take_info info s)
unfolding take_info
take_info-Edge info s =
    let source = info_source info s in
    let updated = apply_updates (info_updates source info) s in
    let settled = set_guest (is_guest source info) updated in
    let edge =
      Edge-Same s updated settled (apply_updates-Edge (info_updates source info) s)
        (set_guest-Same (is_guest source info) updated) in
    if_cases (Edge s) s.state.ready edge (
      Edge-Same s settled (record settled { initial = mark_received settled.initial }) edge
        (record { signals = refl; source = refl; status = refl }))

handle_ply_inf-Edge :
    (loads : String → Option Fields) (str_of : Value → String) (p : String) (s : Speaker)
    → Edge s (handle_ply_inf loads str_of p s)
unfolding handle_ply_inf
handle_ply_inf-Edge loads str_of p s = by_info (parse_ply_inf_json loads str_of p)
  where
    by_info :
        (o : Option Info)
        → Edge s (elim o as (λ _. Speaker) [ none ↦ s | some info ↦ take_info info s ])
    by_info none = Same-Edge s s (Same-refl s)
    by_info (some info) = take_info-Edge info s

-- A payload of the speaker, whichever it is, sends a listen signal exactly when the first reading is settled, the
-- speaker was not listening before it and is listening after it; the signal has the source and the playback
-- status of the state after it, and no signal sent before is lost.
pub on_payload-signals :
    (loads : String → Option Fields) (str_of : Value → String) (payload : String) (s : Speaker)
    → Edge s (on_payload loads str_of payload s)
unfolding on_payload
on_payload-signals loads str_of payload s =
    let p = without_end b'&' (strip payload) in
    let same = Same-Edge s s (Same-refl s) in
    let hints = hinted-Edge pinfget_hint_delay s s same in
    if_cases (Edge s) (starts_with p "AXX+VOL+") (handle_vol-Edge p s) (
      if_cases (Edge s) (starts_with p "AXX+MUT+") hints (
        if_cases (Edge s) (starts_with p "AXX+PLM+") (handle_plm-Edge p s) (
          if_cases (Edge s) (starts_with p "AXX+PLY+INF") (handle_ply_inf-Edge loads str_of p s) (
            if_cases (Edge s) (starts_with p "AXX+PMS+") (handle_pms-Edge p s) (
              if_cases (Edge s) (starts_with p "AXX+POW+") (handle_pow-Edge p s) (
                if_cases (Edge s) (starts_with p "AXX+PST+") (handle_pst-Edge p s) (
                  if_cases (Edge s) (starts_with p "AXX+SLV+") (handle_slv-Edge p s) (
                    if_cases (Edge s) (starts_with p "AXX+PLY+NEW" || starts_with p "AXX+KEY+")
                      hints
                      (if_cases (Edge s) (starts_with p "AXX+PLY+") (handle_ply-Edge p s) (
                        if_cases (Edge s) (starts_with p "AXX+I2S+" || starts_with p "AXX+BT+")
                          hints same))))))))))
