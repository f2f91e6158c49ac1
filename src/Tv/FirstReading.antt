-- ===== src/Tv/FirstReading.antt =====
-- pihub/samsung_tv.py: reconcile_presence gives the TV a first reading, on or off, whatever fails.
use pihub_remote_nrf.Prelude.{
  String, ◌≡◌, refl, Bool, true, false, not, Option, none, some, is_some, List, [], ◌∷◌, ◌++◌, ◌&&◌,
  ◌||◌, arith, if◌then◌else◌, if_split, if_cases,
}
use pihub_remote_nrf.InitialStatus.{InitialStatus, mark_received}
use pihub_remote_nrf.Tv.Presence.{
  Tv, Notice, msearch, ssdp, ws_changes, Answer, answers, raises, is_cached, commit_presence,
  notify, notify_each, notify_msearch, notify_ssdp, Reconciled, reconcile_presence,
}

-- What is known of the presence came with a first reading.
pub record IsConsistent (t : Tv) : Type 0 where
  pub reads : (not (is_some t.presence_cached) || t.initial.received) ≡ true

pub record IsRead (t : Tv) : Type 0 where
  pub known : (is_some t.presence_cached && t.initial.received) ≡ true

read-IsConsistent : (t : Tv) → IsRead t → IsConsistent t
read-IsConsistent t h = record { reads = ground (arith, h.known) }

cached-is_some : (on : Bool) (p : Option Bool) → is_cached on p ≡ true → is_some p ≡ true
cached-is_some true none h = ground (arith, h)
cached-is_some false none h = ground (arith, h)
cached-is_some on (some b) h = refl

known-IsRead :
    (on : Bool) (t : Tv) → is_cached on t.presence_cached ≡ true → IsConsistent t → IsRead t
known-IsRead on t k h = record {
  known = ground (arith, h.reads, cached-is_some on t.presence_cached k);
}

mark_received-received : (i : InitialStatus) → (mark_received i).received ≡ true
unfolding mark_received
mark_received-received i = ground arith

commit-IsRead :
    (on : Bool) (source : String) (t : Tv) → IsConsistent t → IsRead (commit_presence on source t).0
unfolding commit_presence
commit-IsRead on source t h =
    if_split (λ (x : Tv × Bool). IsRead x.0) (is_cached on t.presence_cached)
      (λ k. record { known = (known-IsRead on t k h).known })
      (λ _. record { known = mark_received-received t.initial })

notify-IsConsistent : (n : Notice) (t : Tv) → IsConsistent t → IsConsistent (notify n t)
unfolding notify notify_msearch notify_ssdp
notify-IsConsistent (msearch location) t h =
    if_cases IsConsistent _ h (read-IsConsistent _ (commit-IsRead true "msearch" t h))
notify-IsConsistent (ssdp nts nt location) t h = if_cases IsConsistent _ h (
    if_cases IsConsistent _ (read-IsConsistent _ (commit-IsRead true "ssdp_alive" t h))
      (if_cases IsConsistent _ (read-IsConsistent _ (commit-IsRead false "ssdp_byebye" t h)) h))
notify-IsConsistent (ws_changes connected) t h = record { reads = h.reads }

notify-IsRead : (n : Notice) (t : Tv) → IsRead t → IsRead (notify n t)
unfolding notify notify_msearch notify_ssdp
notify-IsRead (msearch location) t h =
    if_cases IsRead _ h (commit-IsRead true "msearch" t (read-IsConsistent t h))
notify-IsRead (ssdp nts nt location) t h = if_cases IsRead _ h (
    if_cases IsRead _ (commit-IsRead true "ssdp_alive" t (read-IsConsistent t h))
      (if_cases IsRead _ (commit-IsRead false "ssdp_byebye" t (read-IsConsistent t h)) h))
notify-IsRead (ws_changes connected) t h = record { known = h.known }

notify_each-IsConsistent :
    (ns : List Notice) (t : Tv) → IsConsistent t → IsConsistent (notify_each ns t)
unfolding notify_each
notify_each-IsConsistent [] t h = h
notify_each-IsConsistent (n ∷ ns) t h =
    notify_each-IsConsistent ns (notify n t) (notify-IsConsistent n t h)

notify_each-IsRead : (ns : List Notice) (t : Tv) → IsRead t → IsRead (notify_each ns t)
unfolding notify_each
notify_each-IsRead [] t h = h
notify_each-IsRead (n ∷ ns) t h = notify_each-IsRead ns (notify n t) (notify-IsRead n t h)

gone :
    (t : Tv) → is_cached false (commit_presence false "probe_http_down" t).0.presence_cached ≡ true
unfolding commit_presence
gone t = ground arith

-- From a TV of which nothing is known, or that had a first reading, reconcile_presence ends with a first
-- reading, on or off, whichever of the search, the probe and the connecting fail and whatever discovery
-- says meanwhile; and where it did not find the TV, the TV is known to be off.
pub reconcile_presence-IsRead :
    (search_fails : Bool) (searching : List Notice) (probe : Answer) (probing : List Notice)
    (connect_fails : Bool) (connecting : List Notice) (t : Tv)
    → IsConsistent t
    → let r = reconcile_presence search_fails searching probe probing connect_fails connecting t in
      IsRead r.tv × ((r.present || is_cached false r.tv.presence_cached) ≡ true)
unfolding reconcile_presence
reconcile_presence-IsRead search_fails searching probe probing connect_fails connecting t h =
    if_split P (is_cached true t'.presence_cached)
      (λ k. (notify_each-IsRead connecting t' (known-IsRead true t' k h'), refl))
      (λ _. by_probe probe)
  where
    P : Reconciled → Type 0
    P r = IsRead r.tv × ((r.present || is_cached false r.tv.presence_cached) ≡ true)

    t' : Tv
    t' = notify_each searching t

    h' : IsConsistent t'
    h' = notify_each-IsConsistent searching t h

    probed : IsConsistent (notify_each probing t')
    probed = notify_each-IsConsistent probing t' h'

    lost :
        (errors : List String)
        → P (record {
          tv = (commit_presence false "probe_http_down" (notify_each probing t')).0;
          present = false;
          errors = errors;
        })
    lost errors = (
      commit-IsRead false "probe_http_down" (notify_each probing t') probed,
      gone (notify_each probing t'),
    )

    by_probe :
        (a : Answer)
        → P (elim a as (λ _. Reconciled) [
          | answers true ↦ record {
            tv =
                notify_each connecting
                  (commit_presence true "probe_http_up" (notify_each probing t')).0;
            present = true;
            errors =
                if connect_fails
                then (if search_fails then "msearch_bootstrap_failed" ∷ [] else [])
                  ++ "ws_connect_failed" ∷ []
                else (if search_fails then "msearch_bootstrap_failed" ∷ [] else []);
          }
          | answers false ↦ record {
            tv = (commit_presence false "probe_http_down" (notify_each probing t')).0;
            present = false;
            errors = if search_fails then "msearch_bootstrap_failed" ∷ [] else [];
          }
          | raises ↦ record {
            tv = (commit_presence false "probe_http_down" (notify_each probing t')).0;
            present = false;
            errors =
                (if search_fails then "msearch_bootstrap_failed" ∷ [] else [])
                ++ "http_probe_failed" ∷ [];
          }
        ])
    by_probe (answers true) = (
      notify_each-IsRead connecting
          (commit_presence true "probe_http_up" (notify_each probing t')).0
          (commit-IsRead true "probe_http_up" (notify_each probing t') probed),
      refl,
    )
    by_probe (answers false) = lost (if search_fails then "msearch_bootstrap_failed" ∷ [] else [])
    by_probe raises =
        lost (
          (if search_fails then "msearch_bootstrap_failed" ∷ [] else [])
          ++ "http_probe_failed" ∷ [])
