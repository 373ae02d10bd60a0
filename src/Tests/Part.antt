-- ===== src/Tests/Part.antt =====
-- A cluster in memory of GlideinSets and secrets, made of two clusters of one type each.
use gmos_k8s_operator.Prelude.{String, ◌≡◌, refl, Bool, []}
use gmos_k8s_operator.Types.{Secret}
use gmos_k8s_operator.Exec.{Error, Exec, Cell, message, ok, err}
use gmos_k8s_operator.Kube.{Api, HasMeta, Kube, secret_meta}
use gmos_k8s_operator.Kube.Quiet.{Store, IsMetaApi, IsQuiet}
use gmos_k8s_operator.Kube.Kinds.{IsQuietKinds}
use gmos_k8s_operator.Tests.Memory.{Memory, memory_api, is_not_found}
use gmos_k8s_operator.Tests.Cluster.{plain, sets, kube}

-- A part of a larger cluster.
pub record Part (V W : Type 0) : Type 0 where
  pub get_part : V → W
  pub set_part : W → V → V
  pub get-set : (w : W) (v : V) → get_part (set_part w v) ≡ w
  pub set-get : (v : V) → set_part (get_part v) v ≡ v

module _ {V W T : Type 0} (part : Part V W) where
  abbrev pub on_part : Exec (Cell T W) (Unit {0}) → Exec (Cell T V) (Unit {0})
  on_part m c =
      let (r, d) = m (record { resource = c.resource; world = part.get_part c.world }) in
      (r, record { resource = d.resource; world = part.set_part d.world c.world })

  abbrev pub part_api : Api W T → Api V T
  part_api api = record {
    get = λ key. on_part (api.get key);
    create = on_part api.create;
    update = on_part api.update;
    delete = on_part api.delete;
    set_controller_reference = api.set_controller_reference;
    get_name = api.get_name;
    set_name = api.set_name;
    set_namespace = api.set_namespace;
  }

  abbrev pub part_store : Store W T → Store V T
  part_store store = record {
    find = λ v n. store.find (part.get_part v) n;
    put = λ v t. part.set_part (store.put (part.get_part v) t) v;
    drop = λ v n. part.set_part (store.drop (part.get_part v) n) v;
    stored = store.stored;
    doomed = store.doomed;
    absent = store.absent;
  }

  pub part-IsMetaApi :
      {hm : HasMeta T} {api : Api W T} → IsMetaApi hm api → IsMetaApi hm (part_api api)
  part-IsMetaApi M = record {
    meta-set_meta = M.meta-set_meta;
    get_name_lem = M.get_name_lem;
    set_name_lem = M.set_name_lem;
    set_namespace_lem = M.set_namespace_lem;
    set_controller_reference_lem = M.set_controller_reference_lem;
  }

  pub part-IsQuiet :
      {hm : HasMeta T} {is_not_found : Error → Bool} {api : Api W T} {store : Store W T}
      → IsQuiet hm is_not_found api store
      → IsQuiet hm is_not_found (part_api api) (part_store store)
  part-IsQuiet Q = record {
    is_not_found-absent = Q.is_not_found-absent;
    get-some = λ n r v t found. rw (Q.get-some n r (part.get_part v) t found, part.set-get v);
    get-none = λ n r v missing. rw (Q.get-none n r (part.get_part v) missing, part.set-get v);
    key-find = λ n v t found. Q.key-find n (part.get_part v) t found;
    create-none = λ t v missing. rw (Q.create-none t (part.get_part v) missing);
    update-some = λ t v old found. rw (Q.update-some t (part.get_part v) old found);
    delete-some = λ t v old found. rw (Q.delete-some t (part.get_part v) old found);
    meta-stored = Q.meta-stored;
    find-put = λ v t n. rw part.get-set (Q.find-put (part.get_part v) t n);
    is_dead-find = λ n v t found. Q.is_dead-find n (part.get_part v) t found;
    find-drop = λ v m n. rw part.get-set (Q.find-drop (part.get_part v) m n);
  }

  pub part-IsQuietKinds :
      {hm : HasMeta T} {is_not_found : Error → Bool} {api : Api W T} {kind_of : T → String}
      {stores : String → Store W T}
      → IsQuietKinds hm is_not_found api kind_of stores
      → IsQuietKinds hm is_not_found (part_api api) kind_of (λ kind. part_store (stores kind))
  part-IsQuietKinds Q = record {
    each = λ kind.
        let F = Q.each kind in
        record {
          is_not_found-absent = F.is_not_found-absent;
          get-some =
              λ n r v t of found. rw (F.get-some n r (part.get_part v) t of found, part.set-get v);
          get-none =
              λ n r v of missing. rw (F.get-none n r (part.get_part v) of missing, part.set-get v);
          key-find = λ n v t found. F.key-find n (part.get_part v) t found;
          Of-find = λ n v t found. F.Of-find n (part.get_part v) t found;
          create-none = λ t v of missing. rw (F.create-none t (part.get_part v) of missing);
          update-some = λ t v old of found. rw (F.update-some t (part.get_part v) old of found);
        };
    meta-stored = Q.meta-stored;
    kind-stored = Q.kind-stored;
    find-put =
        λ kind v t other n is. rw part.get-set (Q.find-put kind (part.get_part v) t other n is);
    is_dead-find = λ kind n v t found. Q.is_dead-find kind n (part.get_part v) t found;
  }

abbrev pub World : Type 0
World = Memory sets × Memory secret_meta

abbrev pub of_sets : Part World (Memory sets)
of_sets = record {
  get_part = λ v. v.0;
  set_part = λ w v. (w, v.1);
  get-set = λ w v. refl;
  set-get = λ v. refl;
}

abbrev pub of_secrets : Part World (Memory secret_meta)
of_secrets = record {
  get_part = λ v. v.1;
  set_part = λ w v. (v.0, w);
  get-set = λ w v. refl;
  set-get = λ v. refl;
}

-- Calls that this poller does not make.
abbrev unused : {T : Type 0} → Api World T
unused = record {
  get = λ n c. (err (message "Forbidden"), c);
  create = λ c. (err (message "Forbidden"), c);
  update = λ c. (err (message "Forbidden"), c);
  delete = λ c. (err (message "Forbidden"), c);
  set_controller_reference = λ owner t. (err (message "Forbidden"), t);
  get_name = λ t. "";
  set_name = λ n t. t;
  set_namespace = λ n t. t;
}

abbrev pub both : Kube plain
both = record {
  Cluster = World;
  Object = Secret;
  is_not_found = is_not_found;
  finalizers = kube.finalizers;
  collections = unused;
  glidein_sets = part_api of_sets (memory_api sets);
  secrets = part_api of_secrets (memory_api secret_meta);
  objects = part_api of_secrets (memory_api secret_meta);
  list_glidein_sets = λ namespace labels c. (err (message "Forbidden"), c);
  new_collection = kube.new_collection;
  new_glidein_set = kube.new_glidein_set;
  read_random = λ n w. (ok [], w);
}
