-- ===== src/Examples/Memory.antt =====
-- Files in memory, for the runs of the command line.
use krcm_spn.Base.{
  Bool, Bool-cases, Bytes, Option, [], ap, bytes_eq, bytes_eq_refl, bytes_eq→eq, codes, false,
  if◌then◌else◌, inl, inr, none, refl, some, sym, true, ◌++◌, ◌∙◌, ◌≡◌, ◌≢◌, ◌⊎◌,
}
use krcm_spn.Cli.Files.{FileSystem, IsLawful, OpenResult, already_exists, opened}

abbrev pub Store : Type 0
Store = Bytes → Option Bytes

abbrev pub update : Store → Bytes → Option Bytes → Store
update s p v = λ q. if bytes_eq q p then v else s q

abbrev created : Store → Bytes → Option Bytes → OpenResult × Store
created s p none = (opened, update s p (some []))
created s p (some old) = (already_exists, s)

abbrev old_text : Option Bytes → Bytes
old_text none = []
old_text (some t) = t

abbrev moved : Store → Bytes → Bytes → Option Bytes → Bool × Store
moved s from to none = (false, s)
moved s from to (some t) = (true, update (update s to (some t)) from none)

abbrev present : Option Bytes → Bool
present none = false
present (some t) = true

abbrev pub memory : FileSystem
memory = record {
  State = Store;
  FilePath = Bytes;
  file_name = λ p. some p;
  parent = λ p. none;
  current = [];
  join = λ p name. name;
  exists = λ s p. present (s p);
  read = λ s p. s p;
  create_new = λ s p. created s p (s p);
  write_all = λ s p t. (true, update s p (some (old_text (s p) ++ t)));
  flush = λ s p. (true, s);
  sync_all = λ s p. (true, s);
  rename = λ s from to. moved s from to (s from);
  sync_directory = λ s p. s;
  remove_file = λ s p. (true, update s p none);
  next_u64 = λ n. n;
  prompt = λ n. some (codes "secret");
}

pub update_self : (s : Store) (p : Bytes) (v : Option Bytes) → update s p v p ≡ v
update_self s p v = rw (bytes_eq_refl p) refl

bytes_ne : (p q : Bytes) → p ≢ q → bytes_eq p q ≡ false
bytes_ne p q d = elim (Bool-cases (bytes_eq p q)) [
  | inl same ↦ absurd (d (bytes_eq→eq p q same))
  | inr other ↦ other
]

pub update_other : (s : Store) (p q : Bytes) (v : Option Bytes) → q ≢ p → update s p v q ≡ s q
update_other s p q v d = rw (bytes_ne q p d) refl

pub path_cases : (p q : Bytes) → (p ≡ q) ⊎ (p ≢ q)
path_cases p q = elim (Bool-cases (bytes_eq p q)) [
  | inl same ↦ inl (bytes_eq→eq p q same)
  | inr other ↦ inr (λ e. cc (ap (bytes_eq p) (sym e) ∙ bytes_eq_refl p, other))
]

pub created_opened :
    (s : Store) (p : Bytes) (v : Option Bytes)
    → s p ≡ v
    → (created s p v).0 ≡ opened
    → (s p ≡ none) × ((created s p v).1 p ≡ some [])
created_opened s p none e h = (e, update_self s p (some []))
created_opened s p (some t) e h = cc

pub created_others :
    (s : Store) (p q : Bytes) (v : Option Bytes) → q ≢ p → (created s p v).1 q ≡ s q
created_others s p q none d = update_other s p q (some []) d
created_others s p q (some t) d = refl

pub created_failed :
    (s : Store) (p q : Bytes) (v : Option Bytes)
    → (created s p v).0 ≢ opened
    → (created s p v).1 q ≡ s q
created_failed s p q none h = absurd (h refl)
created_failed s p q (some t) h = refl

pub moved_done :
    (s : Store) (from to : Bytes) (v : Option Bytes)
    → s from ≡ v
    → from ≢ to
    → (moved s from to v).0 ≡ true
    → ((moved s from to v).1 to ≡ s from) × ((moved s from to v).1 from ≡ none)
moved_done s from to none e d h = cc
moved_done s from to (some t) e d h = (
  update_other (update s to (some t)) from to none (λ k. d (sym k))
      ∙ update_self s to (some t)
      ∙ sym e,
  update_self (update s to (some t)) from none,
)

pub moved_others :
    (s : Store) (from to q : Bytes) (v : Option Bytes)
    → q ≢ from
    → q ≢ to
    → (moved s from to v).1 q ≡ s q
moved_others s from to q none d e = refl
moved_others s from to q (some t) d e =
    update_other (update s to (some t)) from q none d ∙ update_other s to q (some t) e

pub moved_failed :
    (s : Store) (from to q : Bytes) (v : Option Bytes)
    → (moved s from to v).0 ≡ false
    → (moved s from to v).1 q ≡ s q
moved_failed s from to q none h = refl
moved_failed s from to q (some t) h = cc

pub present-false : (v : Option Bytes) → present v ≡ false → v ≡ none
present-false none h = refl
present-false (some t) h = cc

unfoldable pub memory-IsLawful : IsLawful memory
memory-IsLawful = record {
  content = λ s p. s p;
  path_cases = path_cases;
  file_name-join = λ dir p name n e. refl;
  exists-content = λ s p h. present-false (s p) h;
  read-content = λ s p e. e;
  create_new-opened = λ s p h. created_opened s p (s p) refl h;
  create_new-others = λ s p q d. created_others s p q (s p) d;
  create_new-failed = λ s p q h. created_failed s p q (s p) h;
  write_all-content = λ s p t old e h.
      update_self s p (some (old_text (s p) ++ t))
      ∙ ap (λ (v : Option Bytes). some (old_text v ++ t)) e;
  write_all-others = λ s p q t d. update_other s p q (some (old_text (s p) ++ t)) d;
  flush-content = λ s p q. refl;
  sync_all-content = λ s p q. refl;
  rename-moved = λ s from to d h. moved_done s from to (s from) refl d h;
  rename-others = λ s from to q d e. moved_others s from to q (s from) d e;
  rename-failed = λ s from to q h. moved_failed s from to q (s from) h;
  sync_directory-content = λ s p q. refl;
  remove_file-others = λ s p q d. update_other s p q none d;
}
