-- ===== src/Capture/Fold/Reads.antt =====
-- Actions of transcript_fold.py that call no port but the read of durable bytes.
use memoriesql.Prelude.{
  ℕ, ◌+◌, String, ◌≡◌, refl, ap, subst, Bool, true, false, Option, none, some, List, [], ◌∷◌, Error,
  Result, ok, err, if◌then◌else◌,
}
use memoriesql.Contracts.Runtime.{Runtime}
use memoriesql.Contracts.Exec.{Exec, continue, pure, raise, lift, ◌>>=◌}
use memoriesql.Capture.Host.{Datetime, FileIdentity}
use memoriesql.Capture.Fold.Frame.{FramedSourceRecord}
use memoriesql.Capture.Fold.Source.{DurableTranscriptReadRequest, DurableTranscriptRead}
use memoriesql.Capture.Fold.Exact.{FoldSource, read_exact}
use memoriesql.Capture.Fold.Outcome.{Envelopes}
use memoriesql.Capture.Fold.Adapter.{
  Advance, stepped, unparsed, failed, QualifiedTranscriptFoldAdapter,
}
use memoriesql.Capture.Fold.Records.{
  Assembly, go_on, exceeded, finalize_turn, finalized_step, take_step, within_limits, visit_record,
  assemble_records,
}

module _ {W : Type 0}
    (port_read : DurableTranscriptReadRequest → Exec W DurableTranscriptRead) where
  -- Calls of the port, each in the world that the one before left.
  pub data Reads : W → W → Type 0 where
    done : {w : W} → Reads w w
    next :
        {w w' w'' : W} (request : DurableTranscriptReadRequest)
        (answer : Result DurableTranscriptRead)
        → port_read request w ≡ (answer, w')
        → Reads w' w''
        → Reads w w''

  pub Reads-trans : {u v w : W} → Reads u v → Reads v w → Reads u w
  Reads-trans done more = more
  Reads-trans (next request answer h rest) more = next request answer h (Reads-trans rest more)

  -- An action that does nothing but such calls, however it ends.
  abbrev pub OnlyReads : {A : Type 0} → Exec W A → Type 0
  OnlyReads m = (w : W) → Reads w (m w).1

  pub OnlyReads-pure : {A : Type 0} (a : A) → OnlyReads (pure a)
  unfolding pure
  OnlyReads-pure a w = done

  OnlyReads-raise : (A : Type 0) (e : Error) → OnlyReads (raise {A = A} e)
  unfolding raise
  OnlyReads-raise A e w = done

  pub OnlyReads-lift : {A : Type 0} (r : Result A) → OnlyReads (lift r)
  unfolding lift
  OnlyReads-lift r w = done

  pub OnlyReads->>= :
      {A B : Type 0} (m : Exec W A) (f : A → Exec W B)
      → OnlyReads m
      → ((a : A) → OnlyReads (f a))
      → OnlyReads (m >>= f)
  unfolding ◌>>=◌
  OnlyReads->>= {A = A} m f first then' w = go (m w) (first w)
    where
      go : (p : Result A × W) → Reads w p.1 → Reads w (continue p.0 f p.1).1
      go (ok a, v) reads = Reads-trans reads (then' a v)
      go (err e, v) reads = reads

  OnlyReads-port : (request : DurableTranscriptReadRequest) → OnlyReads (port_read request)
  OnlyReads-port request w = next request _ refl done

  pub read_exact-OnlyReads :
      (py : Runtime) (self : FoldSource) (byte_start byte_end : ℕ) (max_bytes : Option ℕ)
      → OnlyReads (read_exact py port_read self byte_start byte_end max_bytes)
  unfolding read_exact
  read_exact-OnlyReads py self byte_start byte_end max_bytes =
      OnlyReads->>= _ _ (OnlyReads-lift _) (λ _. OnlyReads->>= _ _ (OnlyReads-lift _) (λ _.
        OnlyReads->>= _ _ (OnlyReads-port _)
          (λ read. OnlyReads->>= _ _ (OnlyReads-lift _) (λ _. OnlyReads-lift _))))

  go_on-OnlyReads :
      (visited : Bool × Assembly) (rest : Exec W Assembly)
      → OnlyReads rest
      → OnlyReads (go_on visited rest)
  unfolding go_on
  go_on-OnlyReads (true, a) rest only = only
  go_on-OnlyReads (false, a) rest only = OnlyReads-pure a

  OnlyReads-if :
      {A : Type 0} (c : Bool) (m n : Exec W A)
      → OnlyReads m
      → OnlyReads n
      → OnlyReads (if c then m else n)
  OnlyReads-if true m n first second = first
  OnlyReads-if false m n first second = second

  module _ (py : Runtime) {T E : Type 0} (envelopes : Envelopes E)
      (adapter : QualifiedTranscriptFoldAdapter T E) (self : FoldSource) (file : FileIdentity)
      (recorded_at : Datetime) where
    finalized_step-OnlyReads :
        (a : Assembly) (index : ℕ) (r : FramedSourceRecord) (finalized : Option T)
        → OnlyReads (
            finalized_step py envelopes adapter port_read self file recorded_at a index r finalized)
    unfolding finalized_step finalize_turn
    finalized_step-OnlyReads a index r none = OnlyReads-pure _
    finalized_step-OnlyReads a index r (some finalized) =
        OnlyReads->>= _ _
          (OnlyReads->>= _ _ (read_exact-OnlyReads py self _ _ none) (λ _.
            OnlyReads->>= _ _ (OnlyReads-lift _) (λ _.
              OnlyReads->>= _ _ (OnlyReads-lift _)
                (λ _. OnlyReads->>= _ _ (OnlyReads-lift _) (λ _. OnlyReads-pure _)))))
          (λ _. OnlyReads-pure _)

    take_step-OnlyReads :
        (a : Assembly) (index : ℕ) (r : FramedSourceRecord) (step : Advance T)
        → OnlyReads (take_step py envelopes adapter port_read self file recorded_at a index r step)
    unfolding take_step
    take_step-OnlyReads a index r (failed e) = OnlyReads-raise _ e
    take_step-OnlyReads a index r (unparsed code) = OnlyReads-pure _
    take_step-OnlyReads a index r (stepped state finalized) =
        OnlyReads-if _ _ _ (OnlyReads-pure _) (finalized_step-OnlyReads _ index r finalized)

    within_limits-OnlyReads :
        (a : Assembly) (index : ℕ) (r : FramedSourceRecord) (code : Option String)
        → OnlyReads
            (within_limits py envelopes adapter port_read self file recorded_at a index r code)
    unfolding within_limits
    within_limits-OnlyReads a index r (some code) = OnlyReads-pure _
    within_limits-OnlyReads a index r none =
        take_step-OnlyReads a index r (adapter.advance r a.assembly_state)

    visit_record-OnlyReads :
        (a : Assembly) (index : ℕ) (r : FramedSourceRecord)
        → OnlyReads (visit_record py envelopes adapter port_read self file recorded_at a index r)
    unfolding visit_record
    visit_record-OnlyReads a index r =
        OnlyReads-if _ _ _ (OnlyReads-pure _)
          (within_limits-OnlyReads a index r (exceeded adapter a r))

    -- The loop over the records calls no port but the read.
    pub assemble_records-OnlyReads :
        (a : Assembly) (index : ℕ) (records : List FramedSourceRecord)
        → OnlyReads
            (assemble_records py envelopes adapter port_read self file recorded_at a index records)
    unfolding assemble_records
    assemble_records-OnlyReads a index [] = OnlyReads-pure a
    assemble_records-OnlyReads a index (r ∷ records) =
        OnlyReads->>= _ _ (visit_record-OnlyReads a index r) (λ visited.
          go_on-OnlyReads visited _ (assemble_records-OnlyReads visited.1 (index + 1) records))

  -- The same of an action that ended well.
  pub OnlyReads-ok :
      {A : Type 0} (m : Exec W A) {w w' : W} {a : A} → OnlyReads m → m w ≡ (ok a, w') → Reads w w'
  OnlyReads-ok m {w} only h = subst (Reads w) (ap (λ p. p.1) h) (only w)

  pub read_exact-Reads :
      (py : Runtime) (self : FoldSource) (byte_start byte_end : ℕ) (max_bytes : Option ℕ) {w w' : W}
      {read : DurableTranscriptRead}
      → read_exact py port_read self byte_start byte_end max_bytes w ≡ (ok read, w')
      → Reads w w'
  read_exact-Reads py self byte_start byte_end max_bytes =
      OnlyReads-ok (read_exact py port_read self byte_start byte_end max_bytes)
        (read_exact-OnlyReads py self byte_start byte_end max_bytes)
