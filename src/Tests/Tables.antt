-- ===== src/Tests/Tables.antt =====
-- crates/metadata at concrete inputs: a store of byte strings.
use containerd_rs.Base.{refl, [], Bytes, text, Result, ok}
use containerd_rs.Metadata.Records.{running, exited, unknown, can_transition_to}
use containerd_rs.Metadata.Records.Lifecycle.{Life, stay, go}
use containerd_rs.Metadata.Store.{Error, Store}
use containerd_rs.Metadata.Store.Isolation.{IsNamespace}

restarted : Life running exited
unfolding can_transition_to
restarted = go {t = unknown} refl (go {t = exited} refl stay)

abbrev to_vec : Bytes → Result Error Bytes
to_vec b = ok b

abbrev from_slice : Bytes → Result Error Bytes
from_slice b = ok b

abbrev no_records : Store
no_records = record { images = []; containers = []; sandboxes = []; snapshots = []; leases = [] }

abbrev moby : Bytes
moby = text "moby"

abbrev k8s : Bytes
k8s = text "k8s"

moby-IsNamespace : IsNamespace moby
moby-IsNamespace = (refl, (refl, (refl, (refl, tt))))

k8s-IsNamespace : IsNamespace k8s
k8s-IsNamespace = (refl, (refl, (refl, tt)))
