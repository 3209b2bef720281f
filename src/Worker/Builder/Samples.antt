-- ===== src/Worker/Builder/Samples.antt =====
-- A registry for the tests: no credentials, and a json.dumps that writes nothing.
use deploy_hub.Action.{exception, raised}
use deploy_hub.Worker.Builder.{Registry}

abbrev pub test_registry : Registry
test_registry = record {
  token = raised (exception "no region");
  b64decode = λ s. raised (exception "Incorrect padding");
  dumps = λ j. "{}";
}
