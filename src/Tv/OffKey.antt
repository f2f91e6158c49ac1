-- ===== src/Tv/OffKey.antt =====
-- pihub/samsung_tv.py: what power_off sends, and what it means that it returns True.
use pihub_remote_nrf.Prelude.{
  String, ◌≡◌, refl, ◌∙◌, ap, Bool, true, false, not, Option, List, [], ◌∷◌, ◌++◌, ◌||◌, arith,
  if_split, if_cases, ◌⊎◌, inl, inr,
}
use pihub_remote_nrf.Tv.Presence.{
  Tv, Key, Notice, msearch, ssdp, ws_changes, Answer, answers, raises, is_cached, commit_presence,
  notify, notify_each, notify_msearch, notify_ssdp, refresh_presence,
}
use pihub_remote_nrf.Tv.PowerOff.{
  Socket, Round, give_key, send_key, send_power, await_off, power_off, is_true,
}

-- What discovery says, and what is concluded from a probe, sends no key.
notify_each-keys : (ns : List Notice) (t : Tv) → (notify_each ns t).keys ≡ t.keys
unfolding notify_each notify notify_msearch notify_ssdp commit_presence
notify_each-keys [] t = refl
notify_each-keys (msearch location ∷ ns) t =
    ground (arith, notify_each-keys ns (notify_msearch location t))
notify_each-keys (ssdp nts nt location ∷ ns) t =
    ground (arith, notify_each-keys ns (notify_ssdp nts nt location t))
notify_each-keys (ws_changes connected ∷ ns) t =
    notify_each-keys ns (record t { ws_connected = connected })

-- A switching-off gives at most one key, KEY_POWER; and where the websocket was connected when the switching-off
-- tested it, it is given to a TV that is not known to be off.
pub data AtMostOne (connected : Bool) (t : Tv) : Tv → Type 0 where
  no_key : (t' : Tv) → t'.keys ≡ t.keys → AtMostOne connected t t'
  one_key :
      (k : Key) (t' : Tv)
      → k.code ≡ "KEY_POWER"
      → (is_cached false k.presence ≡ false) ⊎ (connected ≡ false)
      → t'.keys ≡ t.keys ++ k ∷ []
      → AtMostOne connected t t'

commit-keys : (on : Bool) (source : String) (t : Tv) → (commit_presence on source t).0.keys ≡ t.keys
unfolding commit_presence
commit-keys on source t = ground arith

await_off-keys : (rounds : List Round) (t : Tv) → (await_off rounds t).0.keys ≡ t.keys
unfolding await_off
await_off-keys [] t = refl
await_off-keys (r ∷ rounds) t =
    if_cases (λ (x : Tv × Bool). x.0.keys ≡ t.keys) (is_cached false t.presence_cached) refl
      (by_probe r.probe
        (await_off-keys rounds (notify_each r.meanwhile t) ∙ notify_each-keys r.meanwhile t))
  where
    by_probe :
        (a : Answer)
        → (await_off rounds (notify_each r.meanwhile t)).0.keys ≡ t.keys
        → (elim a as (λ _. Tv × Bool) [
          | answers false ↦
              ((commit_presence false "probe_http_down" (notify_each r.meanwhile t)).0, true)
          | answers true ↦ await_off rounds (notify_each r.meanwhile t)
          | raises ↦ await_off rounds (notify_each r.meanwhile t)
        ]).0.keys
          ≡ t.keys
    by_probe (answers true) later = later
    by_probe (answers false) later =
        commit-keys false "probe_http_down" (notify_each r.meanwhile t)
        ∙ notify_each-keys r.meanwhile t
    by_probe raises later = later

await_off-off :
    (rounds : List Round) (t : Tv)
    → (await_off rounds t).1 ≡ true
    → is_cached false (await_off rounds t).0.presence_cached ≡ true
unfolding await_off commit_presence
await_off-off [] t = λ h. absurd (ground (arith, h))
await_off-off (r ∷ rounds) t =
    if_split P (is_cached false t.presence_cached) (λ off h. off)
      (λ _. by_probe r.probe (await_off-off rounds (notify_each r.meanwhile t)))
  where
    P : Tv × Bool → Type 0
    P x = x.1 ≡ true → is_cached false x.0.presence_cached ≡ true

    gone :
        (t : Tv)
        → is_cached false (commit_presence false "probe_http_down" t).0.presence_cached ≡ true
    gone t = ground arith

    by_probe :
        (a : Answer)
        → P (await_off rounds (notify_each r.meanwhile t))
        → P (elim a as (λ _. Tv × Bool) [
          | answers false ↦
              ((commit_presence false "probe_http_down" (notify_each r.meanwhile t)).0, true)
          | answers true ↦ await_off rounds (notify_each r.meanwhile t)
          | raises ↦ await_off rounds (notify_each r.meanwhile t)
        ])
    by_probe (answers true) later = later
    by_probe (answers false) later = λ h. gone (notify_each r.meanwhile t)
    by_probe raises later = later

refresh_presence-keys :
    (up : Bool) (ns : List Notice) (t : Tv) → (refresh_presence up ns t).keys ≡ t.keys
unfolding refresh_presence
refresh_presence-keys up ns t =
    if_cases (λ (x : Tv). x.keys ≡ t.keys)
      (not t.has_session || not (is_cached true t.presence_cached)) refl
      (if_cases (λ (x : Tv). x.keys ≡ t.keys) up (notify_each-keys ns t)
        (commit-keys false "probe_http_down" (notify_each ns t) ∙ notify_each-keys ns t))

abbrev power_key : Option Bool → Key
power_key presence = record { code = "KEY_POWER"; presence = presence }

-- The key that send_key gives.
sent-keys :
    (socket : Socket) (t : Tv)
    → (send_key "KEY_POWER" socket t).0.keys ≡ t.keys ++ power_key t.presence_cached ∷ []
unfolding send_key give_key
sent-keys socket t = notify_each-keys socket.sending _

-- From the TV as it is when its presence has been confirmed.
send_power-AtMostOne :
    (socket : Socket) (t t' : Tv)
    → t'.keys ≡ t.keys
    → is_cached false t'.presence_cached ≡ false
    → (u : Tv) → u.keys ≡ (send_power socket t').0.keys
    → AtMostOne t'.ws_connected t u
unfolding send_power
send_power-AtMostOne socket t t' same on u given =
    if_split P t'.ws_connected
      (λ c g.
        one_key (power_key t'.presence_cached) u refl (inl on)
          (g ∙ sent-keys socket t' ∙ more t'.presence_cached))
      (λ c.
        if_cases P (is_true socket.connects)
          (λ g.
            one_key (power_key (notify_each socket.connecting t').presence_cached) u refl (inr c) (
              g
              ∙ sent-keys socket (record (notify_each socket.connecting t') {
                ws_connected = is_true socket.connects;
              })
              ∙ ap (λ ks. ks ++ power_key (notify_each socket.connecting t').presence_cached ∷ [])
                  (notify_each-keys socket.connecting t' ∙ same)))
          (λ g. no_key u (g ∙ notify_each-keys socket.connecting t' ∙ same)))
      given
  where
    P : Tv × Bool → Type 0
    P x = u.keys ≡ x.0.keys → AtMostOne t'.ws_connected t u

    more :
        (presence : Option Bool)
        → t'.keys ++ power_key presence ∷ [] ≡ t.keys ++ power_key presence ∷ []
    more presence = ap (λ ks. ks ++ power_key presence ∷ []) same

-- Whatever the TV answers, discovery says and becomes of the websocket meanwhile, power_off gives at most one
-- key, KEY_POWER, the toggle; where the websocket is connected once the presence has been probed, the TV is then
-- not known to be off.
pub power_off-AtMostOne :
    (wait probe_up : Bool) (probing : List Notice) (socket : Socket) (rounds : List Round) (t : Tv)
    → AtMostOne
        (refresh_presence probe_up probing t).ws_connected
        t
        (power_off wait probe_up probing socket rounds t).0
unfolding power_off
power_off-AtMostOne wait probe_up probing socket rounds t =
    if_cases P (not t.has_session) (no_key t refl) (
      if_split P (is_cached false t'.presence_cached)
        (λ _. no_key t' (refresh_presence-keys probe_up probing t))
        (λ on.
          if_cases P (not wait) (sent on _ refl)
            (sent on _ (await_off-keys rounds (send_power socket t').0))))
  where
    P : Tv × Bool → Type 0
    P x = AtMostOne (refresh_presence probe_up probing t).ws_connected t x.0

    t' : Tv
    t' = refresh_presence probe_up probing t

    sent :
        is_cached false t'.presence_cached ≡ false
        → (u : Tv) → u.keys ≡ (send_power socket t').0.keys
        → AtMostOne (refresh_presence probe_up probing t).ws_connected t u
    sent on u = send_power-AtMostOne socket t t' (refresh_presence-keys probe_up probing t) on u

-- Where power_off waits and returns True, the TV is known to be off.
pub power_off-off :
    (probe_up : Bool) (probing : List Notice) (socket : Socket) (rounds : List Round) (t : Tv)
    → (power_off true probe_up probing socket rounds t).1 ≡ true
    → is_cached false (power_off true probe_up probing socket rounds t).0.presence_cached ≡ true
unfolding power_off
power_off-off probe_up probing socket rounds t =
    if_cases P (not t.has_session) (λ h. absurd (ground (arith, h)))
      (if_split P (is_cached false t'.presence_cached) (λ off h. off)
        (λ _. await_off-off rounds (send_power socket t').0))
  where
    P : Tv × Bool → Type 0
    P x = x.1 ≡ true → is_cached false x.0.presence_cached ≡ true

    t' : Tv
    t' = refresh_presence probe_up probing t
