-- ===== src/Logic/Files.antt =====
-- The file that the parts of an upload to src/05_ftp/LogicSystem.cpp add up to.
use mathlib.Core.List.{append_assoc, append-nil}
use boost_asio.Common.{
  ℕ, ◌≡◌, ◌≢◌, refl, sym, ap, ◌∙◌, inl, inr, Bool, true, false, not, Option, some, ◌>>=◌,
  Option-cases, Bool-cases, List, [], ◌∷◌, ◌++◌, Bytes, arith, All, ◌==◌,
}
use boost_asio.Map.{find, beq_self, bytes_beq, bytes_beq_iff, nat_eq, bytes_eq}
use boost_asio.Wire.Host.{Host, IsHost}
use boost_asio.Wire.Node.{MsgNode}
use boost_asio.Session.{Session}
use boost_asio.Logic.Codec.{Libraries}
use boost_asio.Logic.{System, write_file, upload_file_callback}
use boost_asio.Logic.Upload.{IsPart, upload-Stored, find-write_file, find-write_file_new}

pub record Part : Type 0 where
  pub node : MsgNode
  pub seq : ℕ
  pub bytes : Bytes

abbrev pub contents : List Part → Bytes
contents [] = []
contents (p ∷ ps) = p.bytes ++ contents ps

module _ (c : Libraries) (h : Host) where
  -- The parts in the order in which the worker handles them.
  unfoldable pub upload_all : ℕ → List Part → System → Option System
  upload_all id [] sys = some sys
  upload_all id (p ∷ ps) sys = do
    sys' ← upload_file_callback c h id p.node sys
    upload_all id ps sys'

not_first : (n : ℕ) → n ≢ 0 → not (n == 0) ≡ true
not_first n ne = ground arith

other_path : (p q : Bytes) → p ≢ q → bytes_beq p q ≡ false
other_path p q ne = elim (Bool-cases (bytes_beq p q)) [
  | inl same ↦ absurd (ne ((bytes_beq_iff p q).0 same))
  | inr differs ↦ differs
]

-- What the first part leaves at a path, whatever was there.
find-truncated :
    (path bytes : Bytes) (files : List (Bytes × Bytes))
    → find path (write_file false path bytes files) ≡ some bytes
find-truncated path bytes files = elim (Option-cases (find path files)) [
  | inl missing ↦
      find-write_file_new false path path bytes files missing ∙ rw (beq_self ⦃e = bytes_eq⦄ path)
  | inr (old, there) ↦
      find-write_file false path path bytes files old there ∙ rw (beq_self ⦃e = bytes_eq⦄ path)
]

find-other :
    (append : Bool) (path other bytes : Bytes) (files : List (Bytes × Bytes))
    → path ≢ other
    → find other (write_file append path bytes files) ≡ find other files
find-other append path other bytes files ne = elim (Option-cases (find path files)) [
  | inl missing ↦
      find-write_file_new append path other bytes files missing ∙ rw (other_path path other ne)
  | inr (old, there) ↦
      find-write_file append path other bytes files old there ∙ rw (other_path path other ne)
]

find-appended :
    (path bytes old : Bytes) (files : List (Bytes × Bytes))
    → find path files ≡ some old
    → find path (write_file true path bytes files) ≡ some (old ++ bytes)
find-appended path bytes old files there =
    find-write_file true path path bytes files old there ∙ rw (beq_self ⦃e = bytes_eq⦄ path)

module _ (c : Libraries) (h : Host) (law : IsHost h) (id : ℕ) (name other path : Bytes)
    (ne : path ≢ other) where
  abbrev Follows : Part → Type 0
  Follows p = IsPart c p.node name p.seq p.bytes × (p.seq ≢ 0)

  -- The rest of an upload
  upload_all-appends :
      (ps : List Part) (sys : System) (s : Session) (old : Bytes)
      → All Follows ps
      → c.join sys.static_path name ≡ path
      → c.opens path ≡ true
      → find id sys.objects ≡ some s
      → find path sys.files ≡ some old
      → (after : System) × (upload_all c h id ps sys ≡ some after)
        × (find path after.files ≡ some (old ++ contents ps))
        × (find other after.files ≡ find other sys.files)
  unfolding upload_all
  upload_all-appends [] sys s old ok at opens there file =
      (sys, refl, file ∙ ap some (sym (append-nil old)), refl)
  upload_all-appends (p ∷ ps) sys s old ok at opens there file =
      let stored =
        upload-Stored c h law id p.node name p.seq p.bytes sys s ok.0.0 (rw at opens) there in
      let added : find path stored.after.files ≡ some (old ++ p.bytes) =
        rw (stored.files_are, at, not_first p.seq ok.0.1)
          (find-appended path p.bytes old sys.files file) in
      let (after, ran, holds, kept) =
        upload_all-appends ps stored.after stored.object (old ++ p.bytes) ok.1
          (rw stored.path_is at) opens stored.still_there added in
      (
        after,
        rw stored.runs ran,
        holds ∙ ap some (append_assoc old p.bytes (contents ps)),
        kept
            ∙ rw (stored.files_are, at)
                (find-other (not (p.seq == 0)) path other p.bytes sys.files ne),
      )

  -- An upload in parts that arrive in their order, the first of them numbered 0 and no other, to a path
  -- that can be opened, while the session is there: every
  -- callback runs to its end, and the file at the path then holds the decoded parts one behind the
  -- other, whatever it held before, while the file at any other path is what it was.
  pub upload_all-contents :
      (first : Part) (ps : List Part) (sys : System) (s : Session)
      → IsPart c first.node name first.seq first.bytes
      → first.seq ≡ 0
      → All Follows ps
      → c.join sys.static_path name ≡ path
      → c.opens path ≡ true
      → find id sys.objects ≡ some s
      → (after : System) × (upload_all c h id (first ∷ ps) sys ≡ some after)
        × (find path after.files ≡ some (contents (first ∷ ps)))
        × (find other after.files ≡ find other sys.files)
  unfolding upload_all
  upload_all-contents first ps sys s part zeroth ok at opens there =
      let stored =
        upload-Stored c h law id first.node name first.seq first.bytes sys s part (rw at opens)
          there in
      let truncates : not (first.seq == 0) ≡ false = ground arith in
      let made : find path stored.after.files ≡ some first.bytes =
        rw (stored.files_are, at, truncates) (find-truncated path first.bytes sys.files) in
      let (after, ran, holds, kept) =
        upload_all-appends ps stored.after stored.object first.bytes ok (rw stored.path_is at) opens
          stored.still_there made in
      (
        after,
        rw stored.runs ran,
        holds,
        kept
            ∙ rw (stored.files_are, at)
                (find-other (not (first.seq == 0)) path other first.bytes sys.files ne),
      )

-- If the file of a part cannot be opened, the part is dropped: nothing is written, and the client
-- gets no answer.
pub upload_unopened :
    (c : Libraries) (h : Host) (id : ℕ) (node : MsgNode) (name : Bytes) (seq : ℕ) (part : Bytes)
    (sys : System)
    → IsPart c node name seq part
    → c.opens (c.join sys.static_path name) ≡ false
    → upload_file_callback c h id node sys ≡ some sys
unfolding upload_file_callback
upload_unopened c h id node name seq part sys p closed =
    rw (p.data_is, p.decodes, p.seq_is, p.name_is, p.total_is, p.trans_is, closed)
