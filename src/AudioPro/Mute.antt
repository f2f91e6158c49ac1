-- ===== src/AudioPro/Mute.antt =====
-- pihub/audiopro_speaker.py: the soft mute of the HDMI input gives back the volume it took.
use pihub_remote_nrf.Prelude.{
  ℕ, String, ◌≡◌, ◌≤◌, ◌<◌, refl, sym, ap, subst, ◌∙◌, Bool, true, false, not, Option, none, some,
  List, [], ◌∷◌, ◌++◌, ◌==◌, ◌&&◌, arith, if_cases,
}
use pihub_remote_nrf.Prelude.Int.{ℤ, pos, parse_int}
use pihub_remote_nrf.Prelude.Result
use pihub_remote_nrf.AudioPro.State.{
  percent, Speaker, no_updates, update_state, plain, listening, emit_listen_edge, apply_updates,
}
use pihub_remote_nrf.AudioPro.Payloads.{code_of, handle_vol}
use pihub_remote_nrf.AudioPro.Commands.{
  Outcome, goes, with_amp, mcu_vol, restore_pct, tcp_command, send, send_control,
  require_control_sent, to_restore, soft_mute, set_volume, set_muted,
}

-- The volumes that the speaker reports one after the other.
unfoldable pub handle_vols : List String → Speaker → Speaker
unfolding handle_vol
handle_vols [] s = s
handle_vols (p ∷ ps) s = handle_vols ps (handle_vol p s)

-- Ready on the HDMI input, with this to go back to, and with these payloads sent.
record Remembers (v : ℕ) (sent : List String) (s : Speaker) : Type 0 where
  ready : s.state.ready ≡ true
  on_hdmi : (plain s.state.source == "hdmi") ≡ true
  restore : s.physical_mute_restore_pct ≡ some v
  sent_all : s.sent ≡ sent

emit-Remembers :
    (v : ℕ) (sent : List String) (old : Bool) (s : Speaker)
    → Remembers v sent s
    → Remembers v sent (emit_listen_edge old s)
unfolding emit_listen_edge
emit-Remembers v sent old s r = if_cases (Remembers v sent) (not s.initial.settled) r (
    if_cases (Remembers v sent) (not old && listening s.state)
      (record { ready = r.ready; on_hdmi = r.on_hdmi; restore = r.restore; sent_all = r.sent_all })
      r)

vol-Remembers :
    (v : ℕ) (sent : List String) (p : String) (s : Speaker)
    → Remembers v sent s
    → Remembers v sent (handle_vol p s)
unfolding handle_vol apply_updates
vol-Remembers v sent p s r = by_number (parse_int (code_of p))
  where
    by_number :
        (o : Option ℤ)
        → Remembers v sent (elim o as (λ _. Speaker) [
          | none ↦ s
          | some vol ↦ apply_updates (record no_updates { volume_pct = some vol }) s
        ])
    by_number none = r
    by_number (some vol) =
        emit-Remembers v sent (listening s.state)
          (record s { state = update_state (record no_updates { volume_pct = some vol }) s.state })
          (record {
            ready = r.ready;
            on_hdmi = r.on_hdmi;
            restore = r.restore;
            sent_all = r.sent_all;
          })

vols-Remembers :
    (v : ℕ) (sent : List String) (ps : List String) (s : Speaker)
    → Remembers v sent s
    → Remembers v sent (handle_vols ps s)
unfolding handle_vols
vols-Remembers v sent [] s r = r
vols-Remembers v sent (p ∷ ps) s r =
    vols-Remembers v sent ps (handle_vol p s) (vol-Remembers v sent p s r)

-- The state after a payload that went through.
abbrev after_send : String → Speaker → Speaker
after_send payload s = record s {
  sent = s.sent ++ with_amp payload ∷ [];
  state = record s.state { last_error = none };
}

tcp_command-goes :
    (payload action : String) (s : Speaker)
    → s.state.ready ≡ true
    → tcp_command goes payload action none s ≡ (after_send payload s, Result.ok tt)
unfolding tcp_command send_control send require_control_sent
tcp_command-goes payload action s ready = rw ready refl

send-Remembers :
    (v : ℕ) (sent : List String) (payload : String) (s : Speaker)
    → Remembers v sent s
    → Remembers v (sent ++ with_amp payload ∷ []) (after_send payload s)
send-Remembers v sent payload s r = record {
  ready = r.ready;
  on_hdmi = r.on_hdmi;
  restore = r.restore;
  sent_all = ap (λ l. l ++ with_amp payload ∷ []) r.sent_all;
}

-- The HDMI input's soft mute and its end, as a send.
on_hdmi_mute :
    (s : Speaker)
    → (plain s.state.source == "hdmi") ≡ true
    → set_muted goes true s
      ≡ set_volume goes
          (pos 0)
          (apply_updates (record no_updates { muted = some true }) (soft_mute s))
unfolding set_muted
on_hdmi_mute s h = rw h refl

on_hdmi_unmute :
    (s : Speaker)
    → (plain s.state.source == "hdmi") ≡ true
    → set_muted goes false s
      ≡ set_volume goes (pos (restore_pct s.physical_mute_restore_pct)) (
          apply_updates
            (record no_updates { muted = some false })
            (record s { physical_muted = false }))
unfolding set_muted
on_hdmi_unmute s h = rw h refl

soft_mute-Remembers :
    (v : ℕ) (s : Speaker)
    → s.state.ready ≡ true
    → (plain s.state.source == "hdmi") ≡ true
    → s.physical_muted ≡ false
    → s.state.volume ≡ some v
    → 0 < v
    → Remembers v s.sent (soft_mute s)
unfolding soft_mute to_restore
soft_mute-Remembers v s ready on_hdmi unmuted volume up = record {
  ready = ready;
  on_hdmi = on_hdmi;
  restore = rw (unmuted, volume) (ground (arith, up));
  sent_all = refl;
}

mute-Remembers :
    (v : ℕ) (s : Speaker)
    → s.state.ready ≡ true
    → (plain s.state.source == "hdmi") ≡ true
    → s.physical_muted ≡ false
    → s.state.volume ≡ some v
    → 0 < v
    → Remembers v (s.sent ++ with_amp (mcu_vol 0) ∷ []) (set_muted goes true s).0
unfolding set_volume apply_updates soft_mute
mute-Remembers v s ready on_hdmi unmuted volume up =
    let r = soft_mute-Remembers v s ready on_hdmi unmuted volume up in
    let t = apply_updates (record no_updates { muted = some true }) (soft_mute s) in
    let rt : Remembers v s.sent t =
      emit-Remembers v s.sent (listening s.state)
        (record (soft_mute s) {
          state = update_state (record no_updates { muted = some true }) s.state;
        })
        (record {
          ready = r.ready;
          on_hdmi = r.on_hdmi;
          restore = r.restore;
          sent_all = r.sent_all;
        }) in
    subst (λ (x : Outcome). Remembers v (s.sent ++ with_amp (mcu_vol 0) ∷ []) x.0)
      (sym (on_hdmi_mute s on_hdmi ∙ tcp_command-goes (mcu_vol 0) "set_volume" t rt.ready))
      (send-Remembers v s.sent (mcu_vol 0) t rt)

emit-muted :
    (old : Bool) (s : Speaker)
    → ((emit_listen_edge old s).state.muted ≡ s.state.muted)
      × ((emit_listen_edge old s).physical_muted ≡ s.physical_muted)
unfolding emit_listen_edge
emit-muted old s =
    let P =
      λ (x : Speaker). (x.state.muted ≡ s.state.muted) × (x.physical_muted ≡ s.physical_muted) in
    if_cases P (not s.initial.settled) (refl, refl)
      (if_cases P (not old && listening s.state) (refl, refl) (refl, refl))

restored : (v : ℕ) → 0 < v → v ≤ 100 → percent (pos (restore_pct (some v))) ≡ v
unfolding restore_pct
restored v up le = ground (arith, up, le)

-- An unmute where the volume v is remembered.
abbrev pub Restored : ℕ → List String → Outcome → Type 0
Restored v sent (s, res) =
    (res ≡ Result.ok tt)
    × (s.sent ≡ sent ++ with_amp (mcu_vol v) ∷ [])
    × (s.state.muted ≡ some false)
    × (s.physical_muted ≡ false)

unmute-Restored :
    (v : ℕ) (sent : List String) (s : Speaker)
    → 0 < v
    → v ≤ 100
    → Remembers v sent s
    → Restored v sent (set_muted goes false s)
unfolding set_volume apply_updates
unmute-Restored v sent s up le r =
    let u = record s {
      physical_muted = false;
      state = update_state (record no_updates { muted = some false }) s.state;
    } in
    let t = emit_listen_edge (listening s.state) u in
    let rt : Remembers v sent t = emit-Remembers v sent (listening s.state) u (record {
      ready = r.ready;
      on_hdmi = r.on_hdmi;
      restore = r.restore;
      sent_all = r.sent_all;
    }) in
    let back =
      ap (λ o. mcu_vol (percent (pos (restore_pct o)))) r.restore ∙ ap mcu_vol (restored v up le) in
    subst (Restored v sent)
      (sym (
        on_hdmi_unmute s r.on_hdmi
        ∙ tcp_command-goes (mcu_vol (percent (pos (restore_pct s.physical_mute_restore_pct))))
            "set_volume" t rt.ready
        ∙ ap (λ m. (after_send m t, Result.ok tt)) back))
      (
        refl,
        (send-Remembers v sent (mcu_vol v) t rt).sent_all,
        (emit-muted (listening s.state) u).0,
        (emit-muted (listening s.state) u).1,
      )

-- On the HDMI input, ready, not muted and at a volume of 1 to 100 percent: a mute, then any volumes reported by
-- the speaker, then an unmute, both sends going through, have sent MCU+VOL with 0 and then with the volume of
-- before the mute, and leave the speaker unmuted.
pub set_muted-set_muted :
    (v : ℕ) (ps : List String) (s : Speaker)
    → s.state.ready ≡ true
    → (plain s.state.source == "hdmi") ≡ true
    → s.physical_muted ≡ false
    → s.state.volume ≡ some v
    → 0 < v
    → v ≤ 100
    → Restored v
        (s.sent ++ with_amp (mcu_vol 0) ∷ [])
        (set_muted goes false (handle_vols ps (set_muted goes true s).0))
set_muted-set_muted v ps s ready on_hdmi unmuted volume up le =
    let muted = (set_muted goes true s).0 in
    let sent = s.sent ++ with_amp (mcu_vol 0) ∷ [] in
    unmute-Restored v sent (handle_vols ps muted) up le
      (vols-Remembers v sent ps muted (mute-Remembers v s ready on_hdmi unmuted volume up))
