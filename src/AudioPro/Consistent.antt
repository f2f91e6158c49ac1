-- ===== src/AudioPro/Consistent.antt =====
-- pihub/audiopro_speaker.py: what holds of the speaker's state in every order of payloads, commands and links.
use pihub_remote_nrf.Prelude.{
  ℕ, String, ◌≡◌, ◌≤◌, refl, Bool, true, false, not, Option, none, some, List, [], ◌∷◌, ◌&&◌, ◌||◌,
  ◌==◌, arith, ltb, is_some, if_cases, if_split, if◌then◌else◌,
}
use pihub_remote_nrf.Prelude.Int.{ℤ, pos, negsuc, parse_int}
use pihub_remote_nrf.Prelude.Json.{Value, Fields}
use pihub_remote_nrf.Prelude.Text.{strip, without_end, zfill, all_digits, is_empty}
use text.Mathlib.Text.{starts_with}
use pihub_remote_nrf.AudioPro.State.{
  SpeakerState, Speaker, Updates, no_updates, or_keep, some_or_keep, percent, is_physical,
  update_state, emit_listen_edge, apply_updates, listening,
}
use pihub_remote_nrf.AudioPro.Payloads.{
  code_of, hinted, handle_vol, handle_plm, plm_updates, plm_to_source, handle_ply, handle_pms,
  handle_pow, handle_pst, handle_slv, set_powered, count_of, request_host_refresh, Info,
  info_source, is_guest, info_updates, set_guest, take_info, parse_ply_inf_json, handle_ply_inf,
  on_payload,
}

abbrev pub Within : Option ℕ → Type 0
Within none = Unit
Within (some v) = v ≤ 100

-- A physical input with a playback status.
abbrev pub plays_physically : Option String → Option String → Bool
plays_physically none status = false
plays_physically (some source) status = is_physical source && is_some status

pub record IsConsistent (st : SpeakerState) : Type 0 where
  pub volume : Within st.volume
  pub physical : plays_physically st.source st.playback_status ≡ false
  pub hosting : st.multiroom_host_active ≡ ltb 0 st.multiroom_slave_count

abbrev pub Ok : Speaker → Type 0
Ok s = IsConsistent s.state

percent-le : (z : ℤ) → percent z ≤ 100
percent-le (pos n) = ground arith
percent-le (negsuc n) = omega arith

volume-Within : (u : Option ℤ) (v : Option ℕ) → Within v → Within (some_or_keep percent u v)
volume-Within none v h = h
volume-Within (some z) v h = percent-le z

emit-state : (old : Bool) (s : Speaker) → (emit_listen_edge old s).state ≡ s.state
unfolding emit_listen_edge
emit-state old s =
    if_cases (λ (x : Speaker). x.state ≡ s.state) (not s.initial.settled) refl
      (if_cases (λ (x : Speaker). x.state ≡ s.state) (not old && listening s.state) refl refl)

pub updates-IsConsistent :
    (u : Updates) (s : Speaker)
    → plays_physically
        (or_keep u.source s.state.source)
        (or_keep u.playback_status s.state.playback_status)
      ≡ false
    → Ok s
    → Ok (apply_updates u s)
unfolding apply_updates
updates-IsConsistent u s h k =
    rw (emit-state (listening s.state) (record s { state = update_state u s.state })) (record {
      volume = volume-Within u.volume_pct s.state.volume k.volume;
      physical = h;
      hosting = k.hosting;
    })

no_status : (source : String) → plays_physically (some source) none ≡ false
no_status source = ground arith

not_physical :
    (source : String) (status : Option String)
    → is_physical source ≡ false
    → plays_physically (some source) status ≡ false
not_physical source status h = rw h refl

vol-IsConsistent : (p : String) (s : Speaker) → Ok s → Ok (handle_vol p s)
unfolding handle_vol
vol-IsConsistent p s k = by_number (parse_int (code_of p))
  where
    by_number :
        (o : Option ℤ)
        → Ok (elim o as (λ _. Speaker) [
          | none ↦ s
          | some vol ↦ apply_updates (record no_updates { volume_pct = some vol }) s
        ])
    by_number none = k
    by_number (some vol) =
        updates-IsConsistent (record no_updates { volume_pct = some vol }) s k.physical k

plm-physical :
    (source : String) (s : Speaker)
    → plays_physically
        (or_keep (plm_updates source).source s.state.source)
        (or_keep (plm_updates source).playback_status s.state.playback_status)
      ≡ false
plm-physical source s =
    if_split
      (λ (u : Updates).
        plays_physically (or_keep u.source s.state.source)
          (or_keep u.playback_status s.state.playback_status)
        ≡ false)
      (is_physical source) (λ _. no_status source)
      (λ h. not_physical source s.state.playback_status h)

plm-IsConsistent : (p : String) (s : Speaker) → Ok s → Ok (handle_plm p s)
unfolding handle_plm
plm-IsConsistent p s k =
    let source = or_keep (plm_to_source (zfill 3 (strip (code_of p)))) "unknown" in
    let r = updates-IsConsistent (plm_updates source) s (plm-physical source s) k in
    record { volume = r.volume; physical = r.physical; hosting = r.hosting }

info-physical :
    (source : String) (info : Info)
    → plays_physically (some source) (
        if is_physical source
        then none
        else if is_guest source info
        then some "play"
        else some info.status)
      ≡ false
info-physical source info =
    if_split (λ (status : Option String). plays_physically (some source) status ≡ false)
      (is_physical source) (λ _. no_status source)
      (λ h. not_physical source (if is_guest source info then some "play" else some info.status) h)

-- What the handlers change beside it keeps it.
kept :
    (s t : Speaker)
    → Ok s
    → t.state.volume ≡ s.state.volume
    → t.state.source ≡ s.state.source
    → t.state.playback_status ≡ s.state.playback_status
    → t.state.multiroom_host_active ≡ s.state.multiroom_host_active
    → t.state.multiroom_slave_count ≡ s.state.multiroom_slave_count
    → Ok t
kept s t k a b c d e = record {
  volume = rw a k.volume;
  physical = rw (b, c) k.physical;
  hosting = rw (d, e) k.hosting;
}

host_refresh-state : (s : Speaker) → (request_host_refresh s).state ≡ s.state
unfolding request_host_refresh
host_refresh-state s =
    if_cases (λ (x : Speaker). x.state ≡ s.state) (not s.asking.enabled) refl
      (by_known s.known_speaker_ips)
  where
    by_known :
        (ips : List String)
        → (elim ips as (λ _. Speaker) [
          | [] ↦ s
          | _ ↦
              if not s.state.multiroom_guest_active || s.host_ip_pending
              then s
              else record s { host_ip_pending = true }
        ]).state
          ≡ s.state
    by_known [] = refl
    by_known (ip ∷ ips) =
        if_cases (λ (x : Speaker). x.state ≡ s.state)
          (not s.state.multiroom_guest_active || s.host_ip_pending) refl refl

guest-IsConsistent : (guest : Bool) (s : Speaker) → Ok s → Ok (set_guest guest s)
unfolding set_guest
guest-IsConsistent guest s k =
    let changed = record s { state = record s.state { multiroom_guest_active = guest } } in
    if_cases Ok guest
      (if_cases Ok s.state.multiroom_guest_active k (
        rw (host_refresh-state changed)
          (record { volume = k.volume; physical = k.physical; hosting = k.hosting })))
      (if_cases Ok s.state.multiroom_guest_active
        (record { volume = k.volume; physical = k.physical; hosting = k.hosting }) k)

info-IsConsistent : (info : Info) (s : Speaker) → Ok s → Ok (take_info info s)
unfolding take_info info_updates
info-IsConsistent info s k =
    let source = info_source info s in
    let updated = apply_updates (info_updates source info) s in
    let c =
      guest-IsConsistent (is_guest source info) updated
        (updates-IsConsistent (info_updates source info) s (info-physical source info) k) in
    if_cases Ok s.state.ready c
      (record { volume = c.volume; physical = c.physical; hosting = c.hosting })

slv-IsConsistent : (p : String) (s : Speaker) → Ok s → Ok (handle_slv p s)
unfolding handle_slv
slv-IsConsistent p s k =
    let code = strip (code_of p) in
    if_cases Ok (not (is_empty code) && all_digits code) (by_count (count_of (parse_int code))) (
      if_cases Ok (code == "NOT")
        (record { volume = k.volume; physical = k.physical; hosting = k.hosting }) k)
  where
    by_count :
        (o : Option ℕ)
        → Ok (elim o as (λ _. Speaker) [
          | none ↦ s
          | some n ↦ record s {
            state = record s.state { multiroom_slave_count = n; multiroom_host_active = ltb 0 n };
          }
        ])
    by_count none = k
    by_count (some n) = record { volume = k.volume; physical = k.physical; hosting = refl }

powered-IsConsistent : (on : Bool) (s : Speaker) → Ok s → Ok (set_powered on s)
powered-IsConsistent on s k = record {
  volume = k.volume;
  physical = k.physical;
  hosting = k.hosting;
}

power-IsConsistent :
    (p : String) (s : Speaker)
    → Ok s
    → Ok (handle_pms p s) × Ok (handle_pow p s) × Ok (handle_pst p s)
unfolding handle_pms handle_pow handle_pst
power-IsConsistent p s k =
    let on = powered-IsConsistent true s k in
    let off = powered-IsConsistent false s k in
    let woken = if code_of p == "000" then set_powered true s else s in
    let w : Ok woken = if_cases Ok (code_of p == "000") on k in
    (
      if_cases Ok (code_of p == "000" || code_of p == "001")
          (record { volume = w.volume; physical = w.physical; hosting = w.hosting }) w,
      if_cases Ok (strip (code_of p) == "001") off k,
      if_cases Ok (strip (code_of p) == "000" || strip (code_of p) == "001") on
          (if_cases Ok (strip (code_of p) == "003") off k),
    )

hinted-IsConsistent : (d : ℕ) (s : Speaker) → Ok s → Ok (hinted d s)
hinted-IsConsistent d s k = record { volume = k.volume; physical = k.physical; hosting = k.hosting }

ply-IsConsistent : (p : String) (s : Speaker) → Ok s → Ok (handle_ply p s)
unfolding handle_ply
ply-IsConsistent p s k =
    if_cases Ok (strip (code_of p) == "000" || strip (code_of p) == "001")
      (hinted-IsConsistent 300 s k) k

inf-IsConsistent :
    (loads : String → Option Fields) (str_of : Value → String) (p : String) (s : Speaker)
    → Ok s
    → Ok (handle_ply_inf loads str_of p s)
unfolding handle_ply_inf
inf-IsConsistent loads str_of p s k = by_info (parse_ply_inf_json loads str_of p)
  where
    by_info :
        (o : Option Info)
        → Ok (elim o as (λ _. Speaker) [ none ↦ s | some info ↦ take_info info s ])
    by_info none = k
    by_info (some info) = info-IsConsistent info s k

-- A payload of the speaker, whichever it is, keeps the state consistent: the volume is at most 100 percent, a
-- physical input (HDMI, optical, line-in, Bluetooth) has no playback status, and the speaker hosts a group
-- exactly where it counts a guest.
pub on_payload-IsConsistent :
    (loads : String → Option Fields) (str_of : Value → String) (payload : String) (s : Speaker)
    → IsConsistent s.state
    → IsConsistent (on_payload loads str_of payload s).state
unfolding on_payload
on_payload-IsConsistent loads str_of payload s k =
    let p = without_end b'&' (strip payload) in
    let hints = hinted-IsConsistent 1000 s k in
    let power = power-IsConsistent p s k in
    if_cases Ok (starts_with p "AXX+VOL+") (vol-IsConsistent p s k) (
      if_cases Ok (starts_with p "AXX+MUT+") hints (
        if_cases Ok (starts_with p "AXX+PLM+") (plm-IsConsistent p s k) (
          if_cases Ok (starts_with p "AXX+PLY+INF") (inf-IsConsistent loads str_of p s k) (
            if_cases Ok (starts_with p "AXX+PMS+") power.0 (
              if_cases Ok (starts_with p "AXX+POW+") power.1 (
                if_cases Ok (starts_with p "AXX+PST+") power.2 (
                  if_cases Ok (starts_with p "AXX+SLV+") (slv-IsConsistent p s k) (
                    if_cases Ok (starts_with p "AXX+PLY+NEW" || starts_with p "AXX+KEY+") hints (
                      if_cases Ok (starts_with p "AXX+PLY+") (ply-IsConsistent p s k) (
                        if_cases Ok (starts_with p "AXX+I2S+" || starts_with p "AXX+BT+") hints
                          k))))))))))
