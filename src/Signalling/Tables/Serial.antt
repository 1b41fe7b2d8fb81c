-- ===== src/Signalling/Tables/Serial.antt =====
-- The ids of the rows of the database of migrations/: every table draws a new id for a new row.
use waterbus_rs.Base.{◌<◌, All}
use waterbus_rs.Signalling.Tables.{Database}

-- The ids of the rows of the tables of rooms and chats are below the next id of the table.
pub record IsSerial (db : Database) : Type 0 where
  pub rooms : All (λ r. r.id < db.next_room) db.rooms
  pub members : All (λ m. m.id < db.next_member) db.members
  pub messages : All (λ m. m.id < db.next_message) db.messages
  pub participants : All (λ p. p.id < db.next_participant) db.participants
