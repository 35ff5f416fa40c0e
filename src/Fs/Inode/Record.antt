-- ===== src/Fs/Inode/Record.antt =====
-- The round trip of an inode through its `struct dinode`, and what it leaves alone.
use xv6_learn.Common.{
  ℕ, zero, suc, ◌+◌, ◌*◌, ◌^◌, ◌≤◌, ◌<◌, ◌≡◌, ◌≢◌, ◌⊎◌, inl, inr, refl, ap, ap₂, sym, ◌∙◌, arith,
  List, [], ◌∷◌, length, false, true, ltb, update, update_self, update_ne, Bool-cases, ◌==◌,
  if◌then◌else◌,
}
use xv6_learn.Sleep.{acquiresleep}
use xv6_learn.Fs.{Superblock, Bytes, Blocks, iblock}
use xv6_learn.Fs.Words.{
  get_le, put_le, values, put_le-outside, get_le-put_le, get_le-agree, get_le-put_le_apart,
}
use xv6_learn.Fs.Inode.{
  Inode, dinode_at, get_addrs, put_addrs, read_dinode, write_dinode, iupdate, Locked, panics,
  sleeps, done, ilock,
}

abbrev pub AllWords : List ℕ → Type 0
AllWords [] = Unit
AllWords (a ∷ bs) = (a < 2 ^ 32) × AllWords bs

-- The fields fit in their places on the disk.
pub record Fits (ip : Inode) : Type 0 where
  pub kind : ip.kind < 2 ^ 16
  pub major : ip.major < 2 ^ 16
  pub minor : ip.minor < 2 ^ 16
  pub nlink : ip.nlink < 2 ^ 16
  pub size : ip.size < 2 ^ 32
  pub addrs : AllWords ip.addrs
  pub length : length ip.addrs ≡ 13

two : values 2 ≡ 2 ^ 16
two = refl

four : values 4 ≡ 2 ^ 32
four = refl

put_addrs-outside :
    (bs : List ℕ) (j : ℕ) (f : Bytes) (x : ℕ)
    → (x < j) ⊎ (j + 4 * length bs ≤ x)
    → put_addrs bs j f x ≡ f x
unfolding put_addrs
put_addrs-outside [] j f x h = refl
put_addrs-outside (a ∷ bs) j f x h =
    put_addrs-outside bs (j + 4) (put_le 4 j a f) x (ground arith)
    ∙ put_le-outside 4 j a f x (ground arith)

get_addrs-put_addrs :
    (bs : List ℕ) (j : ℕ) (f : Bytes)
    → AllWords bs
    → get_addrs (length bs) j (put_addrs bs j f) ≡ bs
unfolding get_addrs put_addrs
get_addrs-put_addrs [] j f h = refl
get_addrs-put_addrs (a ∷ bs) j f h =
    ap₂ ◌∷◌
      (get_le-agree 4 j (put_addrs bs (j + 4) (put_le 4 j a f)) (put_le 4 j a f)
          (λ x p q. put_addrs-outside bs (j + 4) (put_le 4 j a f) x (inl (omega arith)))
        ∙ get_le-put_le 4 j a f (omega (arith, four)))
      (get_addrs-put_addrs bs (j + 4) (put_le 4 j a f) h.1)

get_le-put_addrs :
    (n k : ℕ) (bs : List ℕ) (j : ℕ) (f : Bytes)
    → k + n ≤ j
    → get_le n k (put_addrs bs j f) ≡ get_le n k f
get_le-put_addrs n k bs j f h =
    get_le-agree n k (put_addrs bs j f) f (λ x p q. put_addrs-outside bs j f x (inl (omega arith)))

-- The writes of `write_dinode`, from the last one back.
module _ (ip : Inode) (f : Bytes) (o : ℕ) where
  w1 : Bytes
  w1 = put_le 2 o ip.kind f

  w2 : Bytes
  w2 = put_le 2 (o + 2) ip.major w1

  w3 : Bytes
  w3 = put_le 2 (o + 4) ip.minor w2

  w4 : Bytes
  w4 = put_le 2 (o + 6) ip.nlink w3

  w5 : Bytes
  w5 = put_le 4 (o + 8) ip.size w4

-- Outside its 64 bytes the block keeps its bytes.
pub write_dinode-outside :
    (ip : Inode) (f : Bytes) (x : ℕ)
    → length ip.addrs ≡ 13
    → (x < dinode_at ip.inum) ⊎ (dinode_at ip.inum + 64 ≤ x)
    → write_dinode ip f x ≡ f x
unfolding write_dinode w1 w2 w3 w4 w5
write_dinode-outside ip f x n h =
    let o = dinode_at ip.inum in
    put_addrs-outside ip.addrs (o + 12) (w5 ip f o) x (ground arith)
    ∙ put_le-outside 4 (o + 8) ip.size (w4 ip f o) x (ground arith)
    ∙ put_le-outside 2 (o + 6) ip.nlink (w3 ip f o) x (ground arith)
    ∙ put_le-outside 2 (o + 4) ip.minor (w2 ip f o) x (ground arith)
    ∙ put_le-outside 2 (o + 2) ip.major (w1 ip f o) x (ground arith)
    ∙ put_le-outside 2 o ip.kind f x (ground arith)

-- What `write_dinode` writes is what `read_dinode` reads back.
pub read_dinode-write_dinode :
    (ip : Inode) (f : Bytes) → Fits ip → read_dinode ip (write_dinode ip f) ≡ ip
unfolding read_dinode write_dinode w1 w2 w3 w4 w5
read_dinode-write_dinode ip f fit =
    let o = dinode_at ip.inum in
    let kind : get_le 2 o (write_dinode ip f) ≡ ip.kind =
      get_le-put_addrs 2 o ip.addrs (o + 12) (w5 ip f o) (omega arith)
      ∙ get_le-put_le_apart 2 o 4 (o + 8) ip.size (w4 ip f o) (inl (omega arith))
      ∙ get_le-put_le_apart 2 o 2 (o + 6) ip.nlink (w3 ip f o) (inl (omega arith))
      ∙ get_le-put_le_apart 2 o 2 (o + 4) ip.minor (w2 ip f o) (inl (omega arith))
      ∙ get_le-put_le_apart 2 o 2 (o + 2) ip.major (w1 ip f o) (inl (omega arith))
      ∙ get_le-put_le 2 o ip.kind f (omega (arith, fit.kind, two)) in
    let major : get_le 2 (o + 2) (write_dinode ip f) ≡ ip.major =
      get_le-put_addrs 2 (o + 2) ip.addrs (o + 12) (w5 ip f o) (omega arith)
      ∙ get_le-put_le_apart 2 (o + 2) 4 (o + 8) ip.size (w4 ip f o) (inl (omega arith))
      ∙ get_le-put_le_apart 2 (o + 2) 2 (o + 6) ip.nlink (w3 ip f o) (inl (omega arith))
      ∙ get_le-put_le_apart 2 (o + 2) 2 (o + 4) ip.minor (w2 ip f o) (inl (omega arith))
      ∙ get_le-put_le 2 (o + 2) ip.major (w1 ip f o) (omega (arith, fit.major, two)) in
    let minor : get_le 2 (o + 4) (write_dinode ip f) ≡ ip.minor =
      get_le-put_addrs 2 (o + 4) ip.addrs (o + 12) (w5 ip f o) (omega arith)
      ∙ get_le-put_le_apart 2 (o + 4) 4 (o + 8) ip.size (w4 ip f o) (inl (omega arith))
      ∙ get_le-put_le_apart 2 (o + 4) 2 (o + 6) ip.nlink (w3 ip f o) (inl (omega arith))
      ∙ get_le-put_le 2 (o + 4) ip.minor (w2 ip f o) (omega (arith, fit.minor, two)) in
    let nlink : get_le 2 (o + 6) (write_dinode ip f) ≡ ip.nlink =
      get_le-put_addrs 2 (o + 6) ip.addrs (o + 12) (w5 ip f o) (omega arith)
      ∙ get_le-put_le_apart 2 (o + 6) 4 (o + 8) ip.size (w4 ip f o) (inl (omega arith))
      ∙ get_le-put_le 2 (o + 6) ip.nlink (w3 ip f o) (omega (arith, fit.nlink, two)) in
    let size : get_le 4 (o + 8) (write_dinode ip f) ≡ ip.size =
      get_le-put_addrs 4 (o + 8) ip.addrs (o + 12) (w5 ip f o) (omega arith)
      ∙ get_le-put_le 4 (o + 8) ip.size (w4 ip f o) (omega (arith, fit.size, four)) in
    let addrs : get_addrs 13 (o + 12) (write_dinode ip f) ≡ ip.addrs =
      ap (λ n. get_addrs n (o + 12) (write_dinode ip f)) (sym fit.length)
      ∙ get_addrs-put_addrs ip.addrs (o + 12) (w5 ip f o) fit.addrs in
    λ i. record ip {
      kind = kind i;
      major = major i;
      minor = minor i;
      nlink = nlink i;
      size = size i;
      addrs = addrs i;
    }

get_addrs-agree :
    (n j : ℕ) (f g : Bytes)
    → ((x : ℕ) → j ≤ x → x < j + 4 * n → f x ≡ g x)
    → get_addrs n j f ≡ get_addrs n j g
unfolding get_addrs
get_addrs-agree zero j f g h = refl
get_addrs-agree (suc n) j f g h =
    ap₂ ◌∷◌ (get_le-agree 4 j f g (λ x p q. h x p (omega arith)))
      (get_addrs-agree n (j + 4) f g (λ x p q. h x (omega arith) (omega arith)))

iupdate-outside :
    (sb : Superblock) (ip : Inode) (inum : ℕ) (s : Blocks)
    → length ip.addrs ≡ 13
    → inum ≢ ip.inum
    → (x : ℕ) → dinode_at inum ≤ x
    → x < dinode_at inum + 64
    → (iupdate sb ip s).bytes (iblock sb inum) x ≡ s.bytes (iblock sb inum) x
unfolding iupdate
iupdate-outside sb ip inum s n other x p q =
    let b = iblock sb ip.inum in
    let y = write_dinode ip (s.bytes b) in
    elim (Bool-cases (b == iblock sb inum)) [
      | inl same ↦
          (let e : b ≡ iblock sb inum = ground arith in
            let here : update s.bytes b y (iblock sb inum) ≡ y =
              ap (update s.bytes b y) (sym e) ∙ update_self s.bytes b y in
            ap (λ (z : Bytes). z x) here
            ∙ write_dinode-outside ip (s.bytes b) x n (ground arith)
            ∙ ap (λ c. s.bytes c x) e)
      | inr apart ↦ ap (λ (z : Bytes). z x) (update_ne s.bytes b y (iblock sb inum) (ground arith))
    ]

-- The `struct dinode` that `iupdate` writes is read back; those of other inodes are as they were.
iupdate-read :
    (sb : Superblock) (ip jp : Inode) (s : Blocks)
    → Fits ip
    → let t = iupdate sb ip s in
      (read_dinode ip (t.bytes (iblock sb ip.inum)) ≡ ip)
      × (jp.inum ≢ ip.inum
          → read_dinode jp (t.bytes (iblock sb jp.inum))
            ≡ read_dinode jp (s.bytes (iblock sb jp.inum)))
unfolding iupdate read_dinode
iupdate-read sb ip jp s fit =
    let b = iblock sb ip.inum in
    let o = dinode_at jp.inum in
    (
      ap (read_dinode ip) (update_self s.bytes b (write_dinode ip (s.bytes b)))
          ∙ read_dinode-write_dinode ip (s.bytes b) fit,
      λ other.
          let t = update s.bytes b (write_dinode ip (s.bytes b)) in
          let same : (x : ℕ)
              → o ≤ x
              → x < o + 64
              → t (iblock sb jp.inum) x ≡ s.bytes (iblock sb jp.inum) x =
            iupdate-outside sb ip jp.inum s fit.length other in
          λ i. record jp {
            kind = get_le-agree 2 o _ _ (λ x p q. same x (omega arith) (omega arith)) i;
            major = get_le-agree 2 (o + 2) _ _ (λ x p q. same x (omega arith) (omega arith)) i;
            minor = get_le-agree 2 (o + 4) _ _ (λ x p q. same x (omega arith) (omega arith)) i;
            nlink = get_le-agree 2 (o + 6) _ _ (λ x p q. same x (omega arith) (omega arith)) i;
            size = get_le-agree 4 (o + 8) _ _ (λ x p q. same x (omega arith) (omega arith)) i;
            addrs = get_addrs-agree 13 (o + 12) _ _ (λ x p q. same x (omega arith) (omega arith)) i;
          },
    )

-- An entry with the fields of `ip` that the disk holds.
abbrev pub loaded : (entry ip : Inode) → Inode
loaded entry ip = record entry {
  kind = ip.kind;
  major = ip.major;
  minor = ip.minor;
  nlink = ip.nlink;
  size = ip.size;
  addrs = ip.addrs;
}

read_dinode-loaded :
    (entry ip : Inode) (f : Bytes)
    → entry.inum ≡ ip.inum
    → read_dinode ip f ≡ ip
    → read_dinode entry f ≡ loaded entry ip
unfolding read_dinode
read_dinode-loaded entry ip f same e =
    (λ i. loaded entry (read_dinode (record ip { inum = same i }) f)) ∙ (λ i. loaded entry (e i))

-- `ilock` with what `read_dinode` makes of the entry.
abbrev locks_with : (p : ℕ) → (entry filled : Inode) → Locked Inode
locks_with p entry filled =
    if ltb entry.ref 1
    then panics
    else if entry.lock.locked
    then sleeps
    else if entry.valid
    then done (record entry { lock = record { locked = true; pid = p } })
    else if filled.kind == 0
    then panics
    else done (record filled { valid = true })

ilock-locks_with :
    (sb : Superblock) (p : ℕ) (entry : Inode) (s : Blocks)
    → ilock sb p entry s
      ≡ locks_with p entry (
          read_dinode
            (record entry { lock = record { locked = true; pid = p } })
            (s.bytes (iblock sb entry.inum)))
unfolding ilock acquiresleep
ilock-locks_with sb p entry s = elim (Bool-cases entry.lock.locked) [
  | inl taken ↦ simp (taken, acquiresleep) refl
  | inr idle ↦ simp (idle, acquiresleep) refl
]

-- An `ilock` by process `p`, after an `iupdate` of an inode whose fields fit and whose type is not 0:
-- with an entry for that inode that is in use, not locked and not valid, it takes the lock, and reads
-- into the entry all the fields of the inode that were written; with an entry for any other inode it
-- ends as it did before the `iupdate`.
pub iupdate-ilock :
    (sb : Superblock) (p : ℕ) (ip entry other : Inode) (s : Blocks)
    → Fits ip
    → ip.kind ≢ 0
    → entry.inum ≡ ip.inum
    → 0 < entry.ref
    → entry.valid ≡ false
    → entry.lock.locked ≡ false
    → other.inum ≢ ip.inum
    → (ilock sb p entry (iupdate sb ip s)
        ≡ done
            (record (loaded entry ip) { lock = record { locked = true; pid = p }; valid = true }))
      × (ilock sb p other (iupdate sb ip s) ≡ ilock sb p other s)
iupdate-ilock sb p ip entry other s fit used same in_use unread idle apart =
    let t = iupdate sb ip s in
    let held : Inode → Inode = λ e. record e { lock = record { locked = true; pid = p } } in
    let back = (iupdate-read sb ip ip s fit).0 in
    let fresh : read_dinode (held entry) (t.bytes (iblock sb entry.inum)) ≡ loaded (held entry) ip =
      ap (λ m. read_dinode (held entry) (t.bytes (iblock sb m))) same
      ∙ read_dinode-loaded (held entry) ip (t.bytes (iblock sb ip.inum)) same back in
    let busy : ltb entry.ref 1 ≡ false = ground arith in
    let kind : (ip.kind == 0) ≡ false = ground arith in
    (
      ilock-locks_with sb p entry t
          ∙ ap (locks_with p entry) fresh
          ∙ simp (busy, idle, unread, kind) refl,
      ilock-locks_with sb p other t
          ∙ ap (locks_with p other) ((iupdate-read sb ip (held other) s fit).1 apart)
          ∙ sym (ilock-locks_with sb p other s),
    )
