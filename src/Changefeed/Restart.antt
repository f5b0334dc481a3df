-- ===== src/Changefeed/Restart.antt =====
-- `open` of the LMDB log in changefeed.rs, on a log that retention has emptied.
use stplr.Base.{ℕ, ◌<◌, ◌≡◌, refl, [], arith, nat_Eq}
use stplr.Text.{Text, text_Eq}
use stplr.Word.{add_u64, add_u64-eq}
use stplr.StrDb.{StrDb, IsStrDb, Codec, IsCodec, put_sorted}
use stplr.SeqKey.{key}
use stplr.Changefeed.{ChangeEvent, or_zero}
use stplr.Changefeed.Lmdb
use stplr.Changefeed.Lmdb.{
  LmdbChangeLog, last_number, open_log, read_loop, read, committed_offset, read_group,
}

module _ {D : Type 0} (o : StrDb D) (codec : Codec ChangeEvent) where
  restart_number : add_u64 (or_zero (last_number [])) 1 ≡ 1
  unfolding last_number
  restart_number = add_u64-eq 0 1 (omega arith)

  one_event :
      (codec_lawful : IsCodec codec) (since limit : ℕ) (ev : ChangeEvent)
      → 0 < since
      → ev.seq ≡ 1
      → read_loop o codec since limit [] (put_sorted [] (key 1) (codec.to_string ev)) ≡ []
  unfolding put_sorted read_loop
  one_event codec_lawful since limit ev pos first_ =
      rw (codec_lawful.from_str-to_string ev, read_loop) (ground (arith, first_))

  -- If the LMDB log is empty, then after a restart a group whose offset is above 0 does not read
  -- the event that is appended next, whatever the limit.
  pub read_group-append :
      (lawful : IsStrDb o) (codec_lawful : IsCodec codec) (db offsets : D)
      (op value set doc_id group : Text) (limit : ℕ)
      → o.iter db ≡ []
      → 0 < committed_offset o codec (open_log o codec db offsets) group
      → read_group o codec
          (Lmdb.append o codec (open_log o codec db offsets) op value set doc_id).0
          group
          limit
        ≡ []
  unfolding read_group read Lmdb.append open_log committed_offset
  read_group-append lawful codec_lawful db offsets op value set doc_id group limit empty behind =
      let number = add_u64 (or_zero (last_number (o.iter db))) 1 in
      let first_again : number ≡ 1 = rw empty restart_number in
      let ev : ChangeEvent = record {
        seq = number;
        op = op;
        value = value;
        set = set;
        doc_id = doc_id;
      } in
      let again : ChangeEvent = record {
        seq = 1;
        op = op;
        value = value;
        set = set;
        doc_id = doc_id;
      } in
      rw (lawful.iter-put db (key number) (codec.to_string ev), first_again, empty)
        (one_event codec_lawful (committed_offset o codec (open_log o codec db offsets) group) limit
          again behind refl)
