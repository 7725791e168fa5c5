-- ===== src/EndToEnd/Served.antt =====
-- mq/client.py, `embed_query`, from its arguments to what it returns, through a worker of mq/worker.py.
use sementic_search_engine.Prelude.{List}
use sementic_search_engine.Client
