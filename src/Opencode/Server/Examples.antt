-- ===== src/Opencode/Server/Examples.antt =====
-- A vendor's server that starts, is used, and is closed.
use espur.Base.{◌≡◌, refl, true, codes, lookup, insert, delete, same, bytes_eq, nat_eq}
use espur.Opencode.Server.{Servers, Found, alive, look, start_process, complete, new_servers}

abbrev spawning : Servers
spawning = (look (codes "zai") new_servers).1

abbrev started : Servers
started = start_process (codes "zai") 0 spawning

abbrev serving : Servers
serving = complete (codes "zai") 0 true started

-- A second caller gets the same connection.
shared : (look (codes "zai") serving).0 ≡ Found.ready 1
unfolding look complete new_servers lookup insert delete same alive
shared = refl
