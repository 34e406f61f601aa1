-- ===== src/Tests/Blobs.antt =====
-- A storage account that is a function, and what the Azure backend does with it.
use azs3_proxy.Prelude.{
  ℕ, zero, suc, ◌+◌, ◌<◌, ◌≡◌, refl, sym, ap, ◌∙◌, append-nil, Text, codes, eq_text, eq_text_iff,
  Bool, Bool-cases, true, false, ◌&&◌, Option, none, some, List, [], ◌∷◌, ◌++◌, length, slice, inl,
  inr, arith, if◌then◌else◌,
}
use azs3_proxy.Download.{num_chunks}
use azs3_proxy.AzureBlob.Objects.{stream_block_size}
use azs3_proxy.AzureBlob.Scheduled.{listed, AllSent}
use azs3_proxy.Handlers.Coherence.{Objects, Same, SameBut}
use azs3_proxy.AzureBlob.{Outcome, done, refused, AzureError, BlobProperties, BlobService}
use azs3_proxy.AzureBlob.Account.{IsAccount, IsUpload, IsStaging, Blocks, joined}
use azs3_proxy.Tests.Handled.{holds, holds_other, holds_same}

pub record Account0 : Type 0 where
  pub objects : Objects
  pub staged : Blocks
  pub clock : ℕ

abbrev missing : AzureError
missing = record { message = codes "404 BlobNotFound"; code = codes "BlobNotFound" }

abbrev properties_of : Option (List ℕ) → Outcome BlobProperties
properties_of none = refused missing
properties_of (some content) = done (record {
  content_length = some (length content);
  last_modified = none;
  content_md5 = [];
  resource_type = none;
})

abbrev part_of : Option (ℕ × ℕ) → Option (List ℕ) → Outcome (List ℕ × Bool)
part_of range none = refused missing
part_of none (some content) = done (content, false)
part_of (some (start, count)) (some content) = done (slice content start (start + count), false)

-- the numbers of the chunks of a blob, the last first
abbrev down : ℕ → List ℕ
down zero = []
down (suc n) = n ∷ down n

abbrev all_chunks : Option (List ℕ) → List ℕ
all_chunks none = []
all_chunks (some content) = down (num_chunks (length content) stream_block_size)

abbrev stored : Text → Text → Option (List ℕ) → Account0 → Account0
stored b q content s = record s { objects = holds b q content s.objects }

abbrev streamed : Text → Text → List ℕ × Bool → Account0 → Outcome (Unit {0}) × Account0
streamed b q (content, true) s = (refused missing, s)
streamed b q (content, false) s = (done tt, stored b q (some content) s)

abbrev committed : Text → Text → Option (List ℕ) → Account0 → Outcome (Unit {0}) × Account0
committed b q none s = (refused missing, s)
committed b q (some content) s = (done tt, stored b q (some content) s)

abbrev set_block : Text → Text → Text → List ℕ → Blocks → Blocks
set_block b q id content s c r other =
    if eq_text c b && (eq_text r q && eq_text other id) then some content else s c r other

abbrev pub service0 : BlobService
service0 = record {
  State = Account0;
  now = λ s. (s.clock, record s { clock = s.clock + 1 });
  time_text = λ n. [];
  list_containers = λ s. ([], s);
  container_properties = λ b s. (done tt, s);
  create_container = λ b s. (done tt, s);
  delete_container = λ b s. (done tt, s);
  blob_properties = λ b q s. (properties_of (s.objects b q), s);
  upload_buffer = λ b q content hash s. (done tt, stored b q (some content) s);
  upload_stream = λ size count b q body s. streamed b q body s;
  set_content_md5 = λ b q hash s. (done tt, s);
  delete_blob = λ b q s. (done tt, stored b q none s);
  download = λ b q range s. (part_of range (s.objects b q), s);
  schedule = λ b q s. all_chunks (s.objects b q);
  list_blobs = λ b prefix marker limit s. ([], s);
  stage_block =
      λ b q id content s. (done tt, record s { staged = set_block b q id content s.staged });
  commit_block_list = λ b q ids s. committed b q (joined (s.staged b q) ids) s;
}

abbrev pub objects0 : Account0 → Objects
objects0 s = s.objects

abbrev pub blocks0 : Account0 → Blocks
blocks0 s = s.staged

listed-down : (id n : ℕ) → id < n → listed id (down n) ≡ true
listed-down id zero h = absurd (omega arith)
listed-down id (suc n) h = ground (arith, listed-down id n)

all_chunks-listed :
    (o : Option (List ℕ)) (content : List ℕ) (id : ℕ)
    → o ≡ some content
    → id < num_chunks (length content) stream_block_size
    → listed id (all_chunks o) ≡ true
all_chunks-listed o content id h l =
    rw h (listed-down id (num_chunks (length content) stream_block_size) l)

properties_found0 :
    (o : Option (List ℕ)) (props : BlobProperties)
    → properties_of o ≡ done props
    → (content : List ℕ) × (o ≡ some content) × (props.content_length ≡ some (length content))
properties_found0 none props h = cc
properties_found0 (some content) props h =
    let made : BlobProperties = record {
      content_length = some (length content);
      last_modified = none;
      content_md5 = [];
      resource_type = none;
    } in
    let e : made ≡ props = cc in (content, refl, sym (ap (λ q. q.content_length) e))

part_found0 :
    (o : Option (List ℕ)) (body : List ℕ × Bool)
    → part_of none o ≡ done body
    → (rest : List ℕ) × (o ≡ some (body.0 ++ rest)) × (body.1 ≡ false → rest ≡ [])
part_found0 none body h = cc
part_found0 (some content) body h =
    let got : List ℕ × Bool = (content, false) in
    let e : got ≡ body = cc in ([], ap some (ap (λ g. g.0) e ∙ sym (append-nil body.0)), λ e. refl)

range_found0 :
    (start count : ℕ) (o : Option (List ℕ)) (body : List ℕ × Bool)
    → part_of (some (start, count)) o ≡ done body
    → (content : List ℕ) × (rest : List ℕ) × (o ≡ some content)
      × (slice content start (start + count) ≡ body.0 ++ rest)
      × (body.1 ≡ false → rest ≡ [])
range_found0 start count none body h = cc
range_found0 start count (some content) body h =
    let got : List ℕ × Bool = (slice content start (start + count), false) in
    let e : got ≡ body = cc in
    (content, [], refl, ap (λ g. g.0) e ∙ sym (append-nil body.0), λ e. refl)

buffered0 :
    (b q : Text) (content hash : List ℕ)
    → IsUpload service0 objects0 b q content (service0.upload_buffer b q content hash)
buffered0 b q content hash = record {
  others = λ s c r n. holds_other b q (some content) s.objects c r n;
  stores = λ s h. holds_same b q (some content) s.objects;
  keeps = λ s e h. cc;
}

streamed0 :
    (b q : Text) (body : List ℕ × Bool) → IsUpload service0 objects0 b q body.0 (streamed b q body)
streamed0 b q (content, true) = record {
  others = λ s c r n. refl;
  stores = λ s h. cc;
  keeps = λ s e h c r. refl;
}
streamed0 b q (content, false) = record {
  others = λ s c r n. holds_other b q (some content) s.objects c r n;
  stores = λ s h. holds_same b q (some content) s.objects;
  keeps = λ s e h. cc;
}

streamed_whole0 :
    (b q : Text) (body : List ℕ × Bool) (s : Account0)
    → (streamed b q body s).0 ≡ done tt
    → body.1 ≡ false
streamed_whole0 b q (content, true) s h = cc
streamed_whole0 b q (content, false) s h = refl

pub account0 : IsAccount service0 objects0
account0 = record {
  properties_same = λ b q s c r. refl;
  properties_found = λ b q s. properties_found0 (s.objects b q);
  download_same = λ b q s c r. refl;
  download_found = λ b q s. part_found0 (s.objects b q);
  range_same = λ b q range s c r. refl;
  range_found = λ b q start count s. range_found0 start count (s.objects b q);
  buffered = buffered0;
  streamed = λ size count. streamed0;
  streamed_whole = λ size count. streamed_whole0;
  set_md5_same = λ b q hash s c r. refl;
  delete_others = λ b q s c r n. holds_other b q none s.objects c r n;
  delete_removes = λ b q s h. holds_same b q none s.objects;
  delete_keeps = λ b q s e h. cc;
}

pub all_sent0 : (b q : Text) (s : Account0) → AllSent service0 objects0 account0 b q s
all_sent0 b q s content h large id l = all_chunks-listed (s.objects b q) content id h l

set_block_same :
    (b q id : Text) (content : List ℕ) (s : Blocks)
    → set_block b q id content s b q id ≡ some content
set_block_same b q id content s =
    ground (arith, eq_text_iff b b, eq_text_iff q q, eq_text_iff id id)

set_block_other :
    (b q id : Text) (content : List ℕ) (s : Blocks) (c r other : Text)
    → ¬ ((c ≡ b) × (r ≡ q) × (other ≡ id))
    → set_block b q id content s c r other ≡ s c r other
set_block_other b q id content s c r other n =
    elim (Bool-cases (eq_text c b && (eq_text r q && eq_text other id))) [
      | inl same ↦ absurd (
          n (
            (eq_text_iff c b).0 (ground (arith, same)),
            (eq_text_iff r q).0 (ground (arith, same)),
            (eq_text_iff other id).0 (ground (arith, same)),
          ))
      | inr differ ↦ rw differ refl
    ]

committed_others0 :
    (b q : Text) (o : Option (List ℕ)) (s : Account0)
    → SameBut b q s.objects (committed b q o s).1.objects
committed_others0 b q none s c r n = refl
committed_others0 b q (some content) s c r n = holds_other b q (some content) s.objects c r n

committed_stores0 :
    (b q : Text) (o : Option (List ℕ)) (s : Account0) (bytes : List ℕ)
    → o ≡ some bytes
    → (committed b q o s).1.objects b q ≡ some bytes
committed_stores0 b q none s bytes h = cc
committed_stores0 b q (some content) s bytes h = holds_same b q (some content) s.objects ∙ h

committed_keeps0 :
    (b q : Text) (o : Option (List ℕ)) (s : Account0) (e : AzureError)
    → (committed b q o s).0 ≡ refused e
    → Same s.objects (committed b q o s).1.objects
committed_keeps0 b q none s e h = λ c r. refl
committed_keeps0 b q (some content) s e h = cc

pub staging0 : IsStaging service0 objects0 blocks0
staging0 = record {
  stage_same = λ b q id content s c r. refl;
  stage_stores = λ b q id content s h. set_block_same b q id content s.staged;
  stage_others = λ b q id content s. set_block_other b q id content s.staged;
  stage_keeps = λ b q id content s e c r other h. cc;
  commit_others = λ b q ids s. committed_others0 b q (joined (s.staged b q) ids) s;
  commit_stores =
      λ b q ids s bytes h k. committed_stores0 b q (joined (s.staged b q) ids) s bytes h;
  commit_keeps = λ b q ids s e. committed_keeps0 b q (joined (s.staged b q) ids) s e;
}
