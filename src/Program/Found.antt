-- ===== src/Program/Found.antt =====
-- What a reader of meta.yaml finds of a run of the collector's program (src/main.cpp).
use kist_data_collector.Common.{
  ◌≡◌, refl, ap, ◌∙◌, List, [], ◌∷◌, map, Bool, false, ◌||◌, none, some, if◌then◌else◌, arith,
  Every,
}
use kist_data_collector.Common.Text.{Text}
use kist_data_collector.Common.Lacks.{Lacks}
use kist_data_collector.Session.{accepted, StreamSummary, is_empty}
use kist_data_collector.Session.Reading.{read_streams, read_result}
use kist_data_collector.Session.RoundTrip.{read-episode_meta}
use kist_data_collector.Settings.{Yaml, Settings, from_yaml}
use kist_data_collector.Collector.{Parts, Collector}
use kist_data_collector.Collector.Start.{started_cameras}
use kist_data_collector.Collector.Stop.{summary_of}
use kist_data_collector.Collector.Plain.{
  NamedParts, IsPlainEntry, summary-plain, started_cameras-plain,
}
use kist_data_collector.Collector.Runs.{Reach}
use kist_data_collector.Program.{Machine, Exit, apply_dds_config, main}
use kist_data_collector.Program.Life.{AllMove}
use kist_data_collector.Program.Episode.{
  given_label, given_label-Lacks, session_of, meta_of, main-meta,
}

-- The config's texts and the clock's are single lines, the task holds no quote and no backslash, so
-- that its line is YAML, and the file system takes what is written to meta.yaml.
pub record PlainRun (Y : Yaml) (P : Parts) (e : Machine Y P) (s : Settings) (uri : Text)
    : Type 0 where
  pub started : Lacks 10 e.scene.started_utc
  pub ended : Lacks 10 e.ended_utc
  pub dds : Lacks 10 uri
  pub task : Lacks 10 s.task
  pub unquoted : Lacks b'"' s.task
  pub unescaped : Lacks b'\\' s.task
  pub cameras : Every (Lacks 10) s.cameras
  pub head : e.scene.meta_write ≡ accepted
  pub tail : e.end_write ≡ accepted
  pub result : e.label_write ≡ accepted

sources_of :
    (P : Parts) (ss : List StreamSummary)
    → Every (IsPlainEntry P) ss
    → Every (λ s. Lacks 10 (StreamSummary.source s)) ss
      × Every (λ s. Lacks 10 (StreamSummary.stream s)) ss
sources_of P [] v = (tt, tt)
sources_of P (s ∷ ss) ((h, k), v) = let (hs, ks) = sources_of P ss v in ((h, hs), (k, ks))

in_directory :
    (a b : Bool) (t : Text)
    → b ≡ false
    → (if a || b then none else some t) ≡ (if a then none else some t)
in_directory a b t h = ground (arith, h)

-- meta.yaml if the file system takes all three writes.
abbrev written_meta :
    (Y : Yaml) (P : Parts) (e : Machine Y P) → Settings → Text → Collector P → Text
written_meta Y P e s uri c =
    meta_of Y P
      (record e {
        scene = record e.scene { meta_write = accepted };
        end_write = accepted;
        label_write = accepted;
      })
      s uri c

pub main-read :
    (Y : Yaml) (P : Parts) (e : Machine Y P) (root : Y.Node) (s : Settings) (uri : Text)
    {x : Exit P}
    → e.root ≡ some root
    → from_yaml Y root ≡ some s
    → apply_dds_config Y e.dds root ≡ some (some uri)
    → AllMove P e.looks
    → NamedParts P
    → PlainRun Y P e s uri
    → main Y P e ≡ some x
    → x.code ≡ some 0
    → (c : Collector P) × Reach P c
      × (read_streams x.collector.meta ≡ summary_of P c)
      × (read_result x.collector.meta
          ≡ (if is_empty (given_label Y P e) then none else some (given_label Y P e)))
main-read Y P e root s uri {x} r f u m parts v returned zero_code =
    let (dir, (c, l, plain, meta)) =
      main-meta Y P e root s uri parts v.cameras r f u m returned zero_code in
    let (sources, kinds) = sources_of P (summary_of P c) (summary-plain P parts c plain) in
    let s' : Settings = record s { dds_uri = uri } in
    let names = map (λ p. p.0) (started_cameras P s' (session_of Y P e s).dir s.cameras) in
    let (streams, label) =
      read-episode_meta e.scene.found_meta e.scene.started_utc (session_of Y P e s) s.domain_id uri
        names s.task e.ended_utc e.ended_ns (summary_of P c) (given_label Y P e)
        (record {
          started = v.started;
          dds = v.dds;
          task_line = v.task;
          ended = v.ended;
          label = given_label-Lacks Y P e;
          names = started_cameras-plain P s' (session_of Y P e s).dir s.cameras v.cameras;
          sources = sources;
          kinds = kinds;
        }) in
    let whole = meta ∙ written c in
    (c, l, ap read_streams whole ∙ streams, ap read_result whole ∙ label ∙ in_directory _ _ _ dir)
  where
    written : (c : Collector P) → meta_of Y P e s uri c ≡ written_meta Y P e s uri c
    written c = rw (v.head, v.tail, v.result) refl
