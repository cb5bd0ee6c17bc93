-- ===== src/Parser/Dotted.antt =====
-- An identifier of OME that has a dot.
use ome_kafka_bridge.Common.{◌≡◌, refl, true, none, ◌++◌, Bytes, codes, All}
use ome_kafka_bridge.Config.{default_metrics_topics, default_log_topics}
use ome_kafka_bridge.Parser.Topics.Kinds.{has_dot, topic_kind-dotted}
use ome_kafka_bridge.Parser.Values.{Platform}
use ome_kafka_bridge.Parser.{parse_as, parse}

module _ (p : Platform) (ome value : Bytes) (dotted : has_dot ome ≡ true) where
  parse-dotted : (rest : Bytes) → has_dot rest ≡ true → parse p (ome ++ rest) value ≡ none
  unfolding parse parse_as
  parse-dotted rest h = rw (topic_kind-dotted ome rest dotted h) refl

  -- With an identifier that has a dot, every message of a default topic is an error of the parser,
  -- whatever it holds and whatever the decoders give.
  pub parse-dotted_identifier :
      All (λ t. parse p t value ≡ none) (default_metrics_topics ome ++ default_log_topics ome)
  parse-dotted_identifier = (
    parse-dotted (codes ".telemetry") refl,
    (
      parse-dotted (codes ".health") refl,
      (
        parse-dotted (codes ".alerts") refl,
        (parse-dotted (codes ".auditlogs") refl, (parse-dotted (codes ".inventory") refl, tt)),
      ),
    ),
  )
