-- ===== src/Cri/Answers/Statistics/Entries.antt =====
-- crates/cri/src/server.rs: a sample that fails drops no container from the statistics.
use containerd_rs.Base.{
  ◌≡◌, refl, ap, sym, subst, List, [], ◌∷◌, Bytes, true, Option, none, some, Result, ok, err,
  ok-injective, err_ne_ok, Listed, here, there, if_true,
}
use containerd_rs.Metadata.Records.{running, ContainerRecord}
use containerd_rs.Metadata.Store.Isolation.{IsNamespace}
use containerd_rs.Cri.Service.{Status, Env, World, read_container}
use containerd_rs.Cri.Reconcile.{is_running_state}
use containerd_rs.Cri.Answers.{filter, map_ok, all_containers}
use containerd_rs.Cri.Answers.Filters.{filter-Listed, read-Listed}
use containerd_rs.Cri.Answers.Statistics.{
  ContainerStats, StatsFilter, Samples, stats_fit, container_stats_for, push_some, stats_of_all,
  list_container_stats,
}

-- An entry of a container: it names it, with its labels and annotations.
abbrev pub IsEntryOf : ContainerRecord → ContainerStats → Type 0
IsEntryOf r e = (e.id ≡ r.id) × (e.labels ≡ r.labels) × (e.annotations ≡ r.annotations)

module _ (env : Env) (samples : Samples env) where
  entry_of :
      (r : ContainerRecord) (h : env.Host)
      → r.state ≡ running
      → (e : ContainerStats) × (container_stats_for env samples r h ≡ some e) × IsEntryOf r e
  unfolding container_stats_for
  entry_of r h k =
      (_, if_true _ none (is_running_state r.state) (ap is_running_state k), (refl, refl, refl))

  pushed-Listed :
      (r : ContainerRecord) (h : env.Host) (es : List ContainerStats)
      → r.state ≡ running
      → (e : ContainerStats) × Listed e
          (push_some env samples (container_stats_for env samples r h) es)
        × IsEntryOf r e
  pushed-Listed r h es k =
      let (e, c, is) = entry_of r h k in
      (e, subst (λ o. Listed e (push_some env samples o es)) (sym c) here, is)

  later-Listed :
      (o : Option ContainerStats) (e : ContainerStats) (es : List ContainerStats)
      → Listed e es
      → Listed e (push_some env samples o es)
  later-Listed none e es l = l
  later-Listed (some x) e es l = there l

  stats_of_all-Listed :
      (r : ContainerRecord) (rs : List ContainerRecord) (h : env.Host)
      → r.state ≡ running
      → Listed r rs
      → (e : ContainerStats) × Listed e (stats_of_all env samples rs h) × IsEntryOf r e
  unfolding stats_of_all
  stats_of_all-Listed r [] h k l = elim l [ ]
  stats_of_all-Listed r (_ ∷ rs) h k here = pushed-Listed r h _ k
  stats_of_all-Listed r (x ∷ rs) h k (there l) =
      let (e, m, is) = stats_of_all-Listed r rs h k l in (e, later-Listed _ e _ m, is)

  entry_among :
      (f : Option StatsFilter) (w : World env) (es : List ContainerStats) (r : ContainerRecord)
      (q : Result Status (List ContainerRecord))
      → ((all : List ContainerRecord) → q ≡ ok all → Listed r all)
      → r.state ≡ running
      → stats_fit f r ≡ true
      → map_ok env (λ all. stats_of_all env samples (filter (stats_fit f) all) w.host) q ≡ ok es
      → (e : ContainerStats) × Listed e es × IsEntryOf r e
  entry_among f w es r (err e) there_is k fits h = absurd (err_ne_ok h)
  entry_among f w es r (ok all) there_is k fits h =
      subst (λ l. (e : ContainerStats) × Listed e l × IsEntryOf r e) (ok-injective h)
        (stats_of_all-Listed r _ w.host k
          (filter-Listed (stats_fit f) r all (there_is all refl) fits))

  -- Every running container of which the record can be read and that fits the filter has an entry
  -- in the listed statistics, with its id, labels and annotations, whatever crun answers for it
  -- or for others: a sample that fails is reported as zeros. The namespace has no slash.
  pub list_container_stats-Listed :
      (ns : IsNamespace env.namespace) (f : Option StatsFilter) (w : World env)
      (es : List ContainerStats) (j : Bytes) (r : ContainerRecord)
      → read_container env j w.store ≡ ok (some r)
      → r.state ≡ running
      → stats_fit f r ≡ true
      → list_container_stats env samples f w ≡ ok es
      → (e : ContainerStats) × Listed e es × IsEntryOf r e
  unfolding list_container_stats
  list_container_stats-Listed ns f w es j r found k fits h =
      entry_among f w es r (all_containers env w.store)
        (λ all l. read-Listed env ns j r w.store _ all refl l found) k fits h
