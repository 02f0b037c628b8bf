-- ===== src/Schema/Runs.antt =====
-- Runs of migrate.sh: one behind another, and one for another database.
use codesteward_audit_proxy.Base.{
  ◌≡◌, refl, sym, ◌≢◌, subst, true, false, Option, none, some, List, [], ◌∷◌, ◌++◌, inl, inr,
  Bool-cases, Option-cases, ◌>>=◌, All, All-map, OnSome, get_or_else,
}
use codesteward_audit_proxy.Base.Bytes.{Bytes, codes, eq_bytes, eq_bytes_refl, eq_bytes_sound}
use codesteward_audit_proxy.Schema.{
  Statement, create_database, create_table, add_column, Schema, is_listed, find_table, alter_table,
  execute, execute_all, File, DatabaseServer, apply_file, apply_files, migrate, empty_server,
}
use codesteward_audit_proxy.Schema.Files.{files}

is_listed-append :
    (x : Bytes) (ys zs : List Bytes) → is_listed x ys ≡ true → is_listed x (ys ++ zs) ≡ true
is_listed-append x [] zs h = cc
is_listed-append x (y ∷ ys) zs h = elim (Bool-cases (eq_bytes x y)) [
  | inl same ↦ rw same
  | inr other ↦ rw other (is_listed-append x ys zs (rw other at h))
]

is_listed-last : (x : Bytes) (ys : List Bytes) → is_listed x (ys ++ x ∷ []) ≡ true
is_listed-last x [] = rw (eq_bytes_refl x)
is_listed-last x (y ∷ ys) = elim (Bool-cases (eq_bytes x y)) [
  | inl same ↦ rw same
  | inr other ↦ rw other (is_listed-last x ys)
]

OnSome->>= {ℓ} :
    {A B : Type ℓ} (P : B → Type 0) (m : Option A) (f : A → Option B)
    → ((a : A) → m ≡ some a → OnSome P (f a))
    → OnSome P (m >>= f)
OnSome->>= P none f h = tt
OnSome->>= P (some a) f h = h a refl

-- A database stays.
abbrev HasDatabase : Bytes → Schema → Type 0
HasDatabase d s = is_listed d s.databases ≡ true

execute-HasDatabase :
    (current d : Bytes) (x : Statement) (s : Schema)
    → HasDatabase d s
    → OnSome (HasDatabase d) (execute current x s)
unfolding execute
execute-HasDatabase current d (create_database db) s h =
    elim (Bool-cases (is_listed db s.databases)) [
      | inl there ↦ rw there h
      | inr new ↦ rw new (is_listed-append d s.databases (db ∷ []) h)
    ]
execute-HasDatabase current d (create_table at name cs) s h =
    elim (Bool-cases (is_listed (get_or_else at current) s.databases)) [
      | inr missing ↦ rw missing tt
      | inl there ↦ elim (Option-cases (find_table (get_or_else at current) name s.tables)) [
        | inl absent ↦ rw (there, absent) h
        | inr (t, present) ↦ rw (there, present) h
      ]
    ]
execute-HasDatabase current d (add_column at name c place) s h =
    OnSome->>= (HasDatabase d) (alter_table (get_or_else at current) name c place s.tables) _
      (λ ts e. h)

execute_all-HasDatabase :
    (current d : Bytes) (xs : List Statement) (s : Schema)
    → HasDatabase d s
    → OnSome (HasDatabase d) (execute_all current xs s)
unfolding execute_all
execute_all-HasDatabase current d [] s h = h
execute_all-HasDatabase current d (x ∷ xs) s h =
    OnSome->>= (HasDatabase d) (execute current x s) (execute_all current xs) (λ t e.
      execute_all-HasDatabase current d xs t
        (subst (OnSome (HasDatabase d)) e (execute-HasDatabase current d x s h)))

-- What a server keeps: a database, and the versions that are applied.
pub record IsKept (db : Bytes) (vs : List Bytes) (s : DatabaseServer) : Type 0 where
  pub database : HasDatabase db s.schema
  pub versions : All (λ v. is_listed v s.applied ≡ true) vs

apply_file-IsKept :
    (db : Bytes) (f : File) (vs : List Bytes) (s : DatabaseServer)
    → IsKept db vs s
    → OnSome (IsKept db (f.version ∷ vs)) (apply_file db f s)
unfolding apply_file
apply_file-IsKept db f vs s k = elim (Bool-cases (is_listed f.version s.applied)) [
  | inl old ↦ rw old (record { database = k.database; versions = (old, k.versions) })
  | inr new ↦ rw new (
      OnSome->>= (IsKept db (f.version ∷ vs)) (execute_all db f.statements s.schema) _ (λ t e.
        record {
          database =
              subst (OnSome (HasDatabase db)) e
                (execute_all-HasDatabase db db f.statements s.schema k.database);
          versions = (
            is_listed-last f.version s.applied,
            All-map (λ v. is_listed v s.applied ≡ true) _
                (λ v h. is_listed-append v s.applied (f.version ∷ []) h) vs k.versions,
          );
        }))
]

abbrev versions_onto : List File → List Bytes → List Bytes
versions_onto [] vs = vs
versions_onto (f ∷ fs) vs = versions_onto fs (f.version ∷ vs)

apply_files-IsKept :
    (db : Bytes) (fs : List File) (vs : List Bytes) (s : DatabaseServer)
    → IsKept db vs s
    → OnSome (IsKept db (versions_onto fs vs)) (apply_files db fs s)
unfolding apply_files
apply_files-IsKept db [] vs s k = k
apply_files-IsKept db (f ∷ fs) vs s k =
    OnSome->>= (IsKept db (versions_onto (f ∷ fs) vs)) (apply_file db f s) (apply_files db fs)
      (λ t e.
        apply_files-IsKept db fs (f.version ∷ vs) t
          (subst (OnSome (IsKept db (f.version ∷ vs))) e (apply_file-IsKept db f vs s k)))

versions_onto-All :
    (P : Bytes → Type 0) (fs : List File) (vs : List Bytes)
    → All P (versions_onto fs vs)
    → All (λ f. P f.version) fs × All P vs
versions_onto-All P [] vs all = (tt, all)
versions_onto-All P (f ∷ fs) vs all =
    let (later, now) = versions_onto-All P fs (f.version ∷ vs) all in ((now.0, later), now.1)

apply_files_again :
    (db : Bytes) (fs : List File) (s : DatabaseServer)
    → All (λ f. is_listed f.version s.applied ≡ true) fs
    → apply_files db fs s ≡ some s
unfolding apply_files apply_file
apply_files_again db [] s all = refl
apply_files_again db (f ∷ fs) s all = rw (all.0) (apply_files_again db fs s all.1)

create-HasDatabase :
    (db : Bytes) (s : Schema) → OnSome (HasDatabase db) (execute db (create_database db) s)
unfolding execute
create-HasDatabase db s = elim (Bool-cases (is_listed db s.databases)) [
  | inl there ↦ rw there there
  | inr new ↦ rw new (is_listed-last db s.databases)
]

migrate-IsKept :
    (db : Bytes) (fs : List File) (s : DatabaseServer)
    → OnSome (IsKept db (versions_onto fs [])) (migrate db fs s)
unfolding migrate
migrate-IsKept db fs s =
    OnSome->>= (IsKept db (versions_onto fs [])) (execute db (create_database db) s.schema) _
      (λ schema e.
        apply_files-IsKept db fs [] (record s { schema = schema })
          (record {
            database = subst (OnSome (HasDatabase db)) e (create-HasDatabase db s.schema);
            versions = tt;
          }))

-- Running the migrations again, whatever the files are, changes nothing: neither the tables nor the
-- versions that are recorded.
pub migrate-migrate :
    (db : Bytes) (fs : List File) (s : DatabaseServer) {t : DatabaseServer}
    → migrate db fs s ≡ some t
    → migrate db fs t ≡ some t
unfolding migrate execute
migrate-migrate db fs s {t} e =
    let k = subst (OnSome (IsKept db (versions_onto fs []))) e (migrate-IsKept db fs s) in
    rw (k.database) (
      apply_files_again db fs t
        (versions_onto-All (λ v. is_listed v t.applied ≡ true) fs [] k.versions).0)

eq_bytes_other : (s t : Bytes) → s ≢ t → eq_bytes s t ≡ false
eq_bytes_other s t other = elim (Bool-cases (eq_bytes s t)) [
  | inl same ↦ absurd (other (eq_bytes_sound s t same))
  | inr h ↦ h
]

-- For a database that is not called audit the migrations of an empty server fail: one file names its
-- table without a database, and the tables are made in audit.
pub migrate-other : (db : Bytes) → db ≢ codes "audit" → migrate db files empty_server ≡ none
unfolding migrate eq_bytes
migrate-other db other =
    let e1 = eq_bytes_other (codes "audit") db (λ e. other (sym e)) in
    let e2 = eq_bytes_other db (codes "audit") other in simp (e1, e2)
